-- ===== src/Crc32/Detection.antt =====
-- A changed byte changes the checksum.
use Prim.Native.Nat.{bit_xor}
use bedrockkv.Prelude.{
  ℕ, ◌/◌, ◌%◌, ◌^◌, ◌<◌, ◌≡◌, ◌≢◌, refl, ap, sym, ◌∙◌, [], ◌∷◌, ◌++◌, arith, Bytes, IsByte, IsU32,
  not, true, Bool, ◌==◌,
}
use bedrockkv.Prelude.Bits.{
  bit_xor-lt, bit_xor-inj, bit_xor-inj_right, bit_xor-zero, bit_xor-div, all_below, all_below_sound,
}
use bedrockkv.Crc32.{table, crc_loop, crc32}
use bedrockkv.Crc32.Streaming.{
  round, index, index_lem, index-IsByte, table-IsU32, round-IsU32, crc_loop-IsU32, crc_loop-append,
}

-- No two entries of the table agree in their top byte, by evaluation of all of them.
abbrev distinct_tops : Bool
distinct_tops = all_below 256 (λ i. all_below i (λ j. not (table i / 2 ^ 24 == table j / 2 ^ 24)))

tops : distinct_tops ≡ true
unfolding table all_below
tops = refl

tops_lt : (i j : ℕ) → IsByte i → j < i → table i / 2 ^ 24 ≡ table j / 2 ^ 24 → ⊥
tops_lt i j hi h e =
    let row =
      all_below_sound (λ i. all_below i (λ j. not (table i / 2 ^ 24 == table j / 2 ^ 24))) 256 i hi
        tops in
    let cell = all_below_sound (λ j. not (table i / 2 ^ 24 == table j / 2 ^ 24)) i j h row in
    ground arith

tops-inj : (i j : ℕ) → IsByte i → IsByte j → table i / 2 ^ 24 ≡ table j / 2 ^ 24 → i ≡ j
tops-inj i j hi hj e = ground (arith, tops_lt i j hi, tops_lt j i hj)

-- The top byte after a round is that of the table entry.
round_top : (c p : ℕ) → IsU32 c → round c p / 2 ^ 24 ≡ table (index c p) / 2 ^ 24
round_top c p h =
    let t : ℕ = table (index c p) in
    let high : c / 2 ^ 8 / 2 ^ 24 ≡ 0 = omega arith in
    ap (λ (i : ℕ). bit_xor (table i) (c / 2 ^ 8) / 2 ^ 24) (index_lem c p)
    ∙ bit_xor-div 24 t (c / 2 ^ 8)
    ∙ ap (bit_xor (t / 2 ^ 24)) high
    ∙ bit_xor-zero 32 (t / 2 ^ 24)
        (omega (arith, table-IsU32 (index c p) (omega (arith, index-IsByte c p))))

same_index :
    (c c' p p' : ℕ) → IsU32 c → IsU32 c' → round c p ≡ round c' p' → index c p ≡ index c' p'
same_index c c' p p' h h' e =
    tops-inj (index c p) (index c' p') (index-IsByte c p) (index-IsByte c' p')
      (sym (round_top c p h) ∙ ap (λ (t : ℕ). t / 2 ^ 24) e ∙ round_top c' p' h')

round-inj_byte : (c p p' : ℕ) → IsU32 c → IsByte p → IsByte p' → round c p ≡ round c p' → p ≡ p'
round-inj_byte c p p' h hp hp' e = omega (
  arith,
  bit_xor-inj_right 8 (p % 256) (p' % 256) (c % 256) (omega arith) (omega arith) (omega arith)
      (same_index c c p p' h h e),
)

round-inj : (c c' p : ℕ) → IsU32 c → IsU32 c' → round c p ≡ round c' p → c ≡ c'
round-inj c c' p h h' e =
    let i = same_index c c' p p h h' e in
    let low =
      bit_xor-inj 8 (c % 256) (c' % 256) (p % 256) (omega arith) (omega arith) (omega arith) i in
    let same : bit_xor (table (index c p)) (c / 2 ^ 8) ≡ bit_xor (table (index c p)) (c' / 2 ^ 8) =
      ap (λ (j : ℕ). bit_xor (table j) (c / 2 ^ 8)) (sym (index_lem c p))
      ∙ e
      ∙ ap (λ (j : ℕ). bit_xor (table j) (c' / 2 ^ 8)) (index_lem c' p ∙ sym i) in
    let high =
      bit_xor-inj_right 32 (c / 2 ^ 8) (c' / 2 ^ 8) (table (index c p)) (omega arith) (omega arith)
        (table-IsU32 (index c p) (omega (arith, index-IsByte c p))) same in
    omega arith

crc_loop-inj :
    (ps : Bytes) (c c' : ℕ) → IsU32 c → IsU32 c' → crc_loop ps c ≡ crc_loop ps c' → c ≡ c'
unfolding crc_loop
crc_loop-inj [] c c' h h' e = e
crc_loop-inj (p ∷ ps) c c' h h' e =
    round-inj c c' p h h'
      (crc_loop-inj ps (round c p) (round c' p) (round-IsU32 c p h) (round-IsU32 c' p h') e)

loop_detects :
    (xs ys : Bytes) (p p' c : ℕ)
    → IsU32 c
    → IsByte p
    → IsByte p'
    → crc_loop (xs ++ p ∷ ys) c ≡ crc_loop (xs ++ p' ∷ ys) c
    → p ≡ p'
unfolding crc_loop
loop_detects xs ys p p' c h hp hp' e =
    let m : ℕ = crc_loop xs c in
    let hm = crc_loop-IsU32 xs c h in
    round-inj_byte m p p' hm hp hp' (
      crc_loop-inj ys (round m p) (round m p') (round-IsU32 m p hm) (round-IsU32 m p' hm)
        (sym (crc_loop-append xs (p ∷ ys) c) ∙ e ∙ crc_loop-append xs (p' ∷ ys) c))

-- Two strings that differ in exactly one byte have different checksums.
pub crc32_detects_byte :
    (xs ys : Bytes) (p p' c : ℕ)
    → IsU32 c
    → IsByte p
    → IsByte p'
    → p ≢ p'
    → crc32 (xs ++ p ∷ ys) c ≢ crc32 (xs ++ p' ∷ ys) c
unfolding crc32
crc32_detects_byte xs ys p p' c h hp hp' differ e =
    let start : ℕ = bit_xor c 0xFFFFFFFF in
    let hs = bit_xor-lt 32 c 0xFFFFFFFF h (omega arith) in
    differ (
      loop_detects xs ys p p' start hs hp hp' (
        bit_xor-inj 32 (crc_loop (xs ++ p ∷ ys) start) (crc_loop (xs ++ p' ∷ ys) start) 0xFFFFFFFF
          (crc_loop-IsU32 (xs ++ p ∷ ys) start hs) (crc_loop-IsU32 (xs ++ p' ∷ ys) start hs)
          (omega arith) e))
