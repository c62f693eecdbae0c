-- ===== src/Encoding/RoundTrip.antt =====
-- The readers of encoding.h invert its writers.
use Prim.Native.Nat.{bit_or}
use bedrockkv.Prelude.{
  ℕ, zero, suc, ◌+◌, ◌*◌, ◌/◌, ◌%◌, ◌^◌, ◌<◌, ◌≡◌, refl, ap, ◌∙◌, [], ◌∷◌, ◌++◌, arith, Bytes,
  IsByte, IsU32, IsU64, All, length, byte_at,
}
use bedrockkv.Prelude.Bits.{bit_or_low_high, bit_or_high_low}
use bedrockkv.Encoding.{fixed32, fixed64, get_fixed32, get_fixed64}

-- The shifts and `|` of `GetFixed32` add four bytes up.
or_bytes :
    (a b c d : ℕ)
    → IsByte a
    → IsByte b
    → IsByte c
    → IsByte d
    → bit_or (bit_or (bit_or a (b * 2 ^ 8 % 2 ^ 32)) (c * 2 ^ 16 % 2 ^ 32)) (d * 2 ^ 24 % 2 ^ 32)
      ≡ a + b * 2 ^ 8 + c * 2 ^ 16 + d * 2 ^ 24
or_bytes a b c d ha hb hc hd =
    let eb : b * 2 ^ 8 % 2 ^ 32 ≡ b * 2 ^ 8 = omega arith in
    let ec : c * 2 ^ 16 % 2 ^ 32 ≡ c * 2 ^ 16 = omega arith in
    let ed : d * 2 ^ 24 % 2 ^ 32 ≡ d * 2 ^ 24 = omega arith in
    rw (eb, ec, ed)
      (ap (λ (t : ℕ). bit_or (bit_or t (c * 2 ^ 16)) (d * 2 ^ 24))
          (bit_or_low_high 8 a b (omega arith))
        ∙ ap (λ (t : ℕ). bit_or t (d * 2 ^ 24)) (bit_or_low_high 16 (a + b * 2 ^ 8) c (omega arith))
        ∙ bit_or_low_high 24 (a + b * 2 ^ 8 + c * 2 ^ 16) d (omega arith))

get_fixed32_sum :
    (a b c d : ℕ) (rest : Bytes)
    → IsByte a
    → IsByte b
    → IsByte c
    → IsByte d
    → get_fixed32 (a ∷ b ∷ c ∷ d ∷ rest) ≡ a + b * 2 ^ 8 + c * 2 ^ 16 + d * 2 ^ 24
unfolding get_fixed32 byte_at
get_fixed32_sum a b c d rest ha hb hc hd = or_bytes a b c d ha hb hc hd

-- `GetFixed32` reads back the uint32 that `PutFixed32` wrote, whatever follows it.
pub get_fixed32-fixed32 : (v : ℕ) (rest : Bytes) → IsU32 v → get_fixed32 (fixed32 v ++ rest) ≡ v
unfolding fixed32
get_fixed32-fixed32 v rest h =
    get_fixed32_sum (v % 256) (v / 2 ^ 8 % 256) (v / 2 ^ 16 % 256) (v / 2 ^ 24 % 256) rest
      (omega arith) (omega arith) (omega arith) (omega arith)
    ∙ omega arith

-- One round of `GetFixed64`.
get_round : (v b : ℕ) → v < 2 ^ 56 → IsByte b → bit_or (v * 2 ^ 8 % 2 ^ 64) b ≡ v * 256 + b
get_round v b hv hb =
    let e : v * 2 ^ 8 % 2 ^ 64 ≡ v * 2 ^ 8 = omega arith in rw e (bit_or_high_low 8 v b 56 hb hv)

get_fixed64_sum :
    (a b c d e f g h : ℕ) (rest : Bytes)
    → IsByte a
    → IsByte b
    → IsByte c
    → IsByte d
    → IsByte e
    → IsByte f
    → IsByte g
    → IsByte h
    → get_fixed64 (a ∷ b ∷ c ∷ d ∷ e ∷ f ∷ g ∷ h ∷ rest)
      ≡ ((((((h * 256 + g) * 256 + f) * 256 + e) * 256 + d) * 256 + c) * 256 + b) * 256 + a
unfolding get_fixed64 byte_at
get_fixed64_sum a b c d e f g h rest ha hb hc hd he hf hg hh = rw (get_round 0 h (omega arith) hh) (
    rw (get_round (0 * 256 + h) g (omega arith) hg) (
      rw (get_round ((0 * 256 + h) * 256 + g) f (omega arith) hf) (
        rw (get_round (((0 * 256 + h) * 256 + g) * 256 + f) e (omega arith) he) (
          rw (get_round ((((0 * 256 + h) * 256 + g) * 256 + f) * 256 + e) d (omega arith) hd) (
            rw
              (get_round (((((0 * 256 + h) * 256 + g) * 256 + f) * 256 + e) * 256 + d) c
                (omega arith) hc)
              (rw
                (get_round ((((((0 * 256 + h) * 256 + g) * 256 + f) * 256 + e) * 256 + d) * 256 + c)
                  b (omega arith) hb)
                (rw
                  (get_round
                    (((((((0 * 256 + h) * 256 + g) * 256 + f) * 256 + e) * 256 + d) * 256 + c) * 256
                      + b)
                    a (omega arith) ha)
                  (omega arith))))))))

-- GetFixed64 reads back what PutFixed64 wrote.
pub get_fixed64-fixed64 : (v : ℕ) (rest : Bytes) → IsU64 v → get_fixed64 (fixed64 v ++ rest) ≡ v
unfolding fixed64
get_fixed64-fixed64 v rest h =
    get_fixed64_sum (v / 2 ^ (8 * 0) % 256) (v / 2 ^ (8 * 1) % 256) (v / 2 ^ (8 * 2) % 256)
      (v / 2 ^ (8 * 3) % 256) (v / 2 ^ (8 * 4) % 256) (v / 2 ^ (8 * 5) % 256)
      (v / 2 ^ (8 * 6) % 256) (v / 2 ^ (8 * 7) % 256) rest (omega arith) (omega arith) (omega arith)
      (omega arith) (omega arith) (omega arith) (omega arith) (omega arith)
    ∙ omega arith

pub length-fixed32 : (v : ℕ) → length (fixed32 v) ≡ 4
unfolding fixed32
length-fixed32 v = refl

pub length-fixed64 : (v : ℕ) → length (fixed64 v) ≡ 8
unfolding fixed64
length-fixed64 v = refl

pub fixed32-IsByte : (v : ℕ) → All IsByte (fixed32 v)
unfolding fixed32
fixed32-IsByte v = omega arith

pub fixed64-IsByte : (v : ℕ) → All IsByte (fixed64 v)
unfolding fixed64
fixed64-IsByte v = omega arith

-- PutFixed32 writes back the four bytes that GetFixed32 read.
pub fixed32-get_fixed32 :
    (a b c d : ℕ)
    → IsByte a
    → IsByte b
    → IsByte c
    → IsByte d
    → fixed32 (get_fixed32 (a ∷ b ∷ c ∷ d ∷ [])) ≡ a ∷ b ∷ c ∷ d ∷ []
unfolding fixed32
fixed32-get_fixed32 a b c d ha hb hc hd = rw (get_fixed32_sum a b c d [] ha hb hc hd) (ground arith)

-- A read past the end is 0, so every read is a byte.
pub byte_at-IsByte : (src : Bytes) (i : ℕ) → All IsByte src → IsByte (byte_at src i)
unfolding byte_at
byte_at-IsByte [] i h = omega arith
byte_at-IsByte (b ∷ bs) zero h = h.0
byte_at-IsByte (b ∷ bs) (suc i) h = byte_at-IsByte bs i h.1

-- What `GetFixed32` returns is a uint32.
pub get_fixed32-IsU32 : (src : Bytes) → All IsByte src → IsU32 (get_fixed32 src)
unfolding get_fixed32
get_fixed32-IsU32 src h =
    let ha = byte_at-IsByte src 0 h in
    let hb = byte_at-IsByte src 1 h in
    let hc = byte_at-IsByte src 2 h in
    let hd = byte_at-IsByte src 3 h in
    rw (or_bytes (byte_at src 0) (byte_at src 1) (byte_at src 2) (byte_at src 3) ha hb hc hd)
      (omega arith)
