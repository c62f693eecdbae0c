-- ===== src/Crc32/Streaming.antt =====
-- A checksum can be taken piece by piece, and stays a uint32.
use Prim.Native.Nat.{bit_and, bit_xor}
use bedrockkv.Prelude.{
  ℕ, zero, suc, ◌/◌, ◌%◌, ◌^◌, ◌≡◌, refl, ap, sym, ◌∙◌, [], ◌∷◌, ◌++◌, arith, Bytes, IsByte, IsU32,
  ◌==◌, Bool-cases, inl, inr,
}
use bedrockkv.Prelude.Bits.{bit_and-255, bit_xor-mod_byte, bit_xor-lt, bit_xor-bit_xor}
use bedrockkv.Crc32.{table_bit, table_loop, table, crc_loop, crc32}

table_bit-IsU32 : (c : ℕ) → IsU32 c → IsU32 (table_bit c)
unfolding table_bit
table_bit-IsU32 c h = elim (Bool-cases (bit_and c 1 == 0)) [
  | inl e ↦ rw e (omega arith)
  | inr e ↦ rw e (bit_xor-lt 32 0xEDB88320 (c / 2) (omega arith) (omega arith))
]

table_loop-IsU32 : (n c : ℕ) → IsU32 c → IsU32 (table_loop n c)
unfolding table_loop
table_loop-IsU32 zero c h = h
table_loop-IsU32 (suc n) c h = table_loop-IsU32 n (table_bit c) (table_bit-IsU32 c h)

pub table-IsU32 : (i : ℕ) → IsU32 i → IsU32 (table i)
unfolding table
table-IsU32 i h = table_loop-IsU32 8 i h

-- One round of the byte loop.
abbrev pub round : ℕ → ℕ → ℕ
round c p = bit_xor (table (bit_and (bit_xor c p) 0xFF)) (c / 2 ^ 8)

abbrev pub index : ℕ → ℕ → ℕ
index c p = bit_xor (c % 256) (p % 256)

pub index_lem : (c p : ℕ) → bit_and (bit_xor c p) 0xFF ≡ index c p
index_lem c p = bit_and-255 (bit_xor c p) ∙ bit_xor-mod_byte c p

pub index-IsByte : (c p : ℕ) → IsByte (index c p)
index-IsByte c p = bit_xor-lt 8 (c % 256) (p % 256) (omega arith) (omega arith)

pub round-IsU32 : (c p : ℕ) → IsU32 c → IsU32 (round c p)
round-IsU32 c p h = rw (index_lem c p) (
    bit_xor-lt 32 (table (index c p)) (c / 2 ^ 8)
      (table-IsU32 (index c p) (omega (arith, index-IsByte c p))) (omega arith))

pub crc_loop-IsU32 : (bytes : Bytes) (c : ℕ) → IsU32 c → IsU32 (crc_loop bytes c)
unfolding crc_loop
crc_loop-IsU32 [] c h = h
crc_loop-IsU32 (p ∷ ps) c h = crc_loop-IsU32 ps (round c p) (round-IsU32 c p h)

-- A checksum is a uint32.
pub crc32-IsU32 : (bytes : Bytes) (c : ℕ) → IsU32 c → IsU32 (crc32 bytes c)
unfolding crc32
crc32-IsU32 bytes c h =
    bit_xor-lt 32 (crc_loop bytes (bit_xor c 0xFFFFFFFF)) 0xFFFFFFFF
      (crc_loop-IsU32 bytes (bit_xor c 0xFFFFFFFF) (bit_xor-lt 32 c 0xFFFFFFFF h (omega arith)))
      (omega arith)

pub crc_loop-append : (xs ys : Bytes) (c : ℕ) → crc_loop (xs ++ ys) c ≡ crc_loop ys (crc_loop xs c)
unfolding crc_loop
crc_loop-append [] ys c = refl
crc_loop-append (x ∷ xs) ys c = crc_loop-append xs ys (round c x)

-- The checksum of a concatenation is the checksum of the second part started from that of the
-- first.
pub crc32-append : (xs ys : Bytes) (c : ℕ) → IsU32 c → crc32 (xs ++ ys) c ≡ crc32 ys (crc32 xs c)
unfolding crc32
crc32-append xs ys c h = rw (crc_loop-append xs ys (bit_xor c 0xFFFFFFFF)) (
    ap (λ (t : ℕ). bit_xor (crc_loop ys t) 0xFFFFFFFF)
      (sym (
        bit_xor-bit_xor 32 (crc_loop xs (bit_xor c 0xFFFFFFFF)) 0xFFFFFFFF
          (crc_loop-IsU32 xs (bit_xor c 0xFFFFFFFF) (bit_xor-lt 32 c 0xFFFFFFFF h (omega arith)))
          (omega arith))))
