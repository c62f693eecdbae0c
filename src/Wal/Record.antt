-- ===== src/Wal/Record.antt =====
-- `ReadRecord` puts together the fragments that `EncodeRecord` made of one payload.
use bedrockkv.Prelude.{
  ℕ, suc, ◌+◌, ◌-◌, ◌%◌, ◌≤◌, ◌≡◌, refl, ap, ◌∙◌, subst, Bool, true, false, inl, inr, Bool-cases,
  [], ◌++◌, append_assoc, arith, Bytes, length, take, drop, ltb, ◌==◌, if◌then◌else◌, length-append,
  length-replicate, length-take,
}
use bedrockkv.Wal.{
  block_size, header_size, physical_record, record_type, is_short_tail, padding, aligned,
  fragment_size, encode_loop,
}
use bedrockkv.Wal.Reader.{Reader, Fill, IsFaithful, fragment}
use bedrockkv.Wal.Position.{At, length-physical_record}
use bedrockkv.Wal.Physical.{Returned, read_physical_record-physical_record}

pub aligned-le : (b : ℕ) → b ≤ block_size → aligned b + header_size ≤ block_size
unfolding aligned
aligned-le b h = ground arith

pub fragment_size-le :
    (off left : ℕ)
    → (fragment_size off left ≤ left) × (fragment_size off left ≤ block_size - off - header_size)
unfolding fragment_size
fragment_size-le off left = ground arith

pub length-padding : (b : ℕ) → length (padding b) ≡ (if is_short_tail b then block_size - b else 0)
unfolding padding
length-padding b = elim (Bool-cases (is_short_tail b)) [
  | inl e ↦ rw e (length-replicate (block_size - b) 0)
  | inr e ↦ rw e refl
]

-- The place in the block keeps step with the place in the log.
pub in_step :
    (b o n : ℕ)
    → b ≤ block_size
    → o % block_size ≡ b % block_size
    → (o + length (padding b) + n) % block_size ≡ (aligned b + n) % block_size
unfolding aligned
in_step b o n h e = ground (arith, length-padding b)

-- The fuel that the writer's loop needs at `b`.
abbrev pub Enough : ℕ → ℕ → Bytes → Type 0
Enough fuel b p = length p + (if aligned b == block_size - header_size then 2 else 1) ≤ fuel

-- What is behind the fragment of one round.
abbrev pub behind : ℕ → ℕ → Bytes → Bytes
behind fuel b p =
    let frag = fragment_size (aligned b) (length p) in
    if ltb 0 (length p - frag)
    then encode_loop fuel (aligned b + header_size + frag) false (drop frag p)
    else []

abbrev pub piece : ℕ → Bytes → Bytes
piece b p = take (fragment_size (aligned b) (length p)) p

abbrev pub kind : ℕ → Bool → Bytes → ℕ
kind b begin p = record_type begin (fragment_size (aligned b) (length p) == length p)

encode_loop-suc :
    (fuel b : ℕ) (begin : Bool) (p : Bytes)
    → encode_loop (suc fuel) b begin p
      ≡ padding b ++ (physical_record (kind b begin p) (piece b p) ++ behind fuel b p)
unfolding encode_loop
encode_loop-suc fuel b begin p = refl

pub length-piece : (b : ℕ) (p : Bytes) → length (piece b p) ≡ fragment_size (aligned b) (length p)
length-piece b p = omega (
  arith,
  length-take (fragment_size (aligned b) (length p)) p,
  fragment_size-le (aligned b) (length p),
)

pub length-encode_loop :
    (fuel b : ℕ) (begin : Bool) (p : Bytes)
    → length (encode_loop (suc fuel) b begin p)
      ≡ length (padding b) + (9 + fragment_size (aligned b) (length p)) + length (behind fuel b p)
length-encode_loop fuel b begin p = omega (
  arith,
  ap length (encode_loop-suc fuel b begin p),
  length-append (padding b) (physical_record (kind b begin p) (piece b p) ++ behind fuel b p),
  length-append (physical_record (kind b begin p) (piece b p)) (behind fuel b p),
  length-physical_record (kind b begin p) (piece b p),
  length-piece b p,
)

kind-pos : (b : ℕ) (begin : Bool) (p : Bytes) → 1 ≤ kind b begin p
kind-pos b begin p = positive begin (fragment_size (aligned b) (length p) == length p)
  where
    positive : (x y : Bool) → 1 ≤ record_type x y
    positive true true = unfold record_type in omega arith
    positive true false = unfold record_type in omega arith
    positive false true = unfold record_type in omega arith
    positive false false = unfold record_type in omega arith

abbrev pub Scratch : Bool → Reader → Bytes
Scratch begin r = if begin then [] else r.scratch

module _ (fill : Bytes → Fill) (faithful : IsFaithful fill) (fuel b o : ℕ) (begin : Bool)
    (p rest : Bytes) (r : Reader) (h : At r b o (encode_loop (suc fuel) b begin p ++ rest)) where
  abbrev pub place : ℕ
  place = o + length (padding b) + (9 + length (piece b p))

  pub round :
      (r' : Reader) × Returned fill r (fragment (piece b p) (kind b begin p) place) r'
      × At r' (aligned b + (9 + length (piece b p))) place (behind fuel b p ++ rest)
  round =
      read_physical_record-physical_record fill faithful r b o (kind b begin p) (piece b p)
        (behind fuel b p ++ rest) (subst (At r b o) regroup h) (kind-pos b begin p)
        (omega
          (arith, length-piece b p, fragment_size-le (aligned b) (length p), aligned-le b h.within))
    where
      regroup :
          encode_loop (suc fuel) b begin p ++ rest
          ≡ padding b ++ (physical_record (kind b begin p) (piece b p) ++ (behind fuel b p ++ rest))
      regroup =
          ap (λ (l : Bytes). l ++ rest) (encode_loop-suc fuel b begin p)
          ∙ append_assoc (padding b)
              (physical_record (kind b begin p) (piece b p) ++ behind fuel b p) rest
          ∙ ap (◌++◌ (padding b))
              (append_assoc (physical_record (kind b begin p) (piece b p)) (behind fuel b p) rest)
