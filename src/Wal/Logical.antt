-- ===== src/Wal/Logical.antt =====
-- The fragments of one payload, read in turn.
use bedrockkv.Prelude.{
  ℕ, zero, suc, ◌+◌, ◌-◌, ◌%◌, ◌<◌, ◌≡◌, refl, ap, sym, ◌∙◌, subst, Bool, true, false, not, inl,
  inr, Bool-cases, [], ◌++◌, append_assoc, arith, Bytes, length, drop, ◌==◌, length-drop, take_all,
  take-append-drop,
}
use bedrockkv.Wal.{
  block_size, header_size, record_type, padding, aligned, fragment_size, encode_loop,
}
use bedrockkv.Wal.Reader.{
  Reader, Fill, IsFaithful, fragment, ReadResult, payload, RecordStep, inside, finish, on_fragment,
  record_step, record_continue, record_loop, read_physical_record,
}
use bedrockkv.Wal.Position.{At}
use bedrockkv.Wal.Record.{
  aligned-le, in_step, Enough, behind, piece, kind, length-piece, length-encode_loop, Scratch,
  round,
}

-- The reader has returned `p` and stands behind it, at `o` in the log.
pub record Read (got : ReadResult × Reader) (p : Bytes) (o : ℕ) (rest : Bytes) : Type 0 where
  pub reader : Reader
  pub b : ℕ
  pub result : got ≡ (payload p, reader)
  pub at : At reader b o rest
  pub step : o % block_size ≡ b % block_size
  pub good : reader.last_good_end ≡ o

-- The last or only fragment ends the record.
on_last :
    (begin : Bool) (frag : Bytes) (end : ℕ) (r : Reader)
    → (r' : Reader) × (on_fragment (not begin) frag (record_type begin true) end r
        ≡ finish (payload (Scratch begin r ++ frag)) r')
      × ((b o : ℕ) (rest : Bytes) → At r b o rest → At r' b o rest)
      × (r'.last_good_end ≡ end)
unfolding on_fragment record_type
on_last true frag end r = (
  record r { last_good_end = end },
  refl,
  λ b o rest h. record {
    within = h.within;
    in_buffer = h.in_buffer;
    in_file = h.in_file;
    at_eof = h.at_eof;
    pos_le = h.pos_le;
    counted = h.counted;
    offset = h.offset;
  },
  refl,
)
on_last false frag end r = (
  record r { last_good_end = end; scratch = [] },
  refl,
  λ b o rest h. record {
    within = h.within;
    in_buffer = h.in_buffer;
    in_file = h.in_file;
    at_eof = h.at_eof;
    pos_le = h.pos_le;
    counted = h.counted;
    offset = h.offset;
  },
  refl,
)

-- Any other fragment is added to the scratch.
on_more :
    (begin : Bool) (frag : Bytes) (end : ℕ) (r : Reader)
    → (r' : Reader) × (on_fragment (not begin) frag (record_type begin false) end r ≡ inside r')
      × ((b o : ℕ) (rest : Bytes) → At r b o rest → At r' b o rest)
      × (r'.scratch ≡ Scratch begin r ++ frag)
unfolding on_fragment record_type
on_more true frag end r = (
  record r { scratch = frag },
  refl,
  λ b o rest h. record {
    within = h.within;
    in_buffer = h.in_buffer;
    in_file = h.in_file;
    at_eof = h.at_eof;
    pos_le = h.pos_le;
    counted = h.counted;
    offset = h.offset;
  },
  refl,
)
on_more false frag end r = (
  record r { scratch = r.scratch ++ frag },
  refl,
  λ b o rest h. record {
    within = h.within;
    in_buffer = h.in_buffer;
    in_file = h.in_file;
    at_eof = h.at_eof;
    pos_le = h.pos_le;
    counted = h.counted;
    offset = h.offset;
  },
  refl,
)

Scratch-same :
    (begin : Bool) (r r' : Reader) → r'.scratch ≡ r.scratch → Scratch begin r' ≡ Scratch begin r
Scratch-same true r r' h = refl
Scratch-same false r r' h = h

loop_step :
    (F : ℕ) (fill : Bytes → Fill) (inf : Bool) (r r₁ : Reader) (frag : Bytes) (t end : ℕ)
    → read_physical_record fill r ≡ (fragment frag t end, r₁)
    → record_loop (suc F) fill inf r
      ≡ record_continue (record_loop F fill true) (on_fragment inf frag t end r₁)
unfolding record_loop record_step
loop_step F fill inf r r₁ frag t end h = rw h refl

continue-finish :
    (next : Reader → ReadResult × Reader) (res : ReadResult) (r : Reader) (s : RecordStep)
    → s ≡ finish res r
    → record_continue next s ≡ (res, r)
unfolding record_continue
continue-finish next res r s h = rw h refl

continue-inside :
    (next : Reader → ReadResult × Reader) (r : Reader) (s : RecordStep)
    → s ≡ inside r
    → record_continue next s ≡ next r
unfolding record_continue
continue-inside next r s h = rw h refl

-- A fragment that is not all that is left fills the block.
fragment_size_full :
    (off left : ℕ)
    → (fragment_size off left == left) ≡ false
    → (fragment_size off left ≡ block_size - off - header_size) × (fragment_size off left < left)
unfolding fragment_size
fragment_size_full off left h = ground arith

module _ (fill : Bytes → Fill) (faithful : IsFaithful fill) where
  logical_last :
      (F fuel b o : ℕ) (begin : Bool) (p rest : Bytes) (r : Reader)
      → At r b o (encode_loop (suc fuel) b begin p ++ rest)
      → o % block_size ≡ b % block_size
      → fragment_size (aligned b) (length p) ≡ length p
      → Read
          (record_loop (suc F) fill (not begin) r)
          (Scratch begin r ++ p)
          (o + length (encode_loop (suc fuel) b begin p))
          rest
  logical_last F fuel b o begin p rest r h e whole =
      let end : ℕ = o + length (padding b) + (9 + length (piece b p)) in
      let next : ℕ = aligned b + (9 + length (piece b p)) in
      let (r₁, back, behind₁) = round fill faithful fuel b o begin p rest r h in
      let all : piece b p ≡ p = rw whole (take_all (length p) p (omega arith)) in
      let type : kind b begin p ≡ record_type begin true =
        ap (record_type begin) (ground (arith, whole)) in
      let no_more : behind fuel b p ≡ [] = ground (arith, whole) in
      let (r₂, fin, keep, good) = on_last begin (piece b p) end r₁ in
      let size : o + length (encode_loop (suc fuel) b begin p) ≡ end =
        omega (arith, length-encode_loop fuel b begin p, length-piece b p, ap length no_more) in
      record {
        reader = r₂;
        b = next;
        result =
            loop_step F fill (not begin) r r₁ (piece b p) (kind b begin p) end back.result
            ∙ continue-finish (record_loop F fill true) _ r₂ _
                (ap (λ (t : ℕ). on_fragment (not begin) (piece b p) t end r₁) type ∙ fin)
            ∙ ap (λ (l : Bytes). (payload l, r₂))
                (ap (λ (s : Bytes). s ++ piece b p) (Scratch-same begin r r₁ back.scratch)
                  ∙ ap (◌++◌ (Scratch begin r)) all);
        at = rw size (
            keep next end rest (subst (λ (l : Bytes). At r₁ next end (l ++ rest)) no_more behind₁));
        step = rw size (in_step b o (9 + length (piece b p)) h.within e);
        good = good ∙ sym size;
      }

  pub logical :
      (F fuel b o : ℕ) (begin : Bool) (p rest : Bytes) (r : Reader)
      → At r b o (encode_loop fuel b begin p ++ rest)
      → o % block_size ≡ b % block_size
      → Enough fuel b p
      → length (encode_loop fuel b begin p) < F
      → Read
          (record_loop F fill (not begin) r)
          (Scratch begin r ++ p)
          (o + length (encode_loop fuel b begin p))
          rest
  logical F zero b o begin p rest r h e enough big = absurd (ground arith)
  logical zero (suc fuel) b o begin p rest r h e enough big = absurd (omega arith)
  logical (suc F) (suc fuel) b o begin p rest r h e enough big =
      elim (Bool-cases (fragment_size (aligned b) (length p) == length p)) [
        | inl whole ↦ logical_last F fuel b o begin p rest r h e (ground arith)
        | inr part ↦
            let end : ℕ = o + length (padding b) + (9 + length (piece b p)) in
            let frag : ℕ = fragment_size (aligned b) (length p) in
            let next : ℕ = aligned b + header_size + frag in
            let tail : Bytes = encode_loop fuel next false (drop frag p) in
            let (r₁, back, behind₁) = round fill faithful fuel b o begin p rest r h in
            let type : kind b begin p ≡ record_type begin false = ap (record_type begin) part in
            let (r₂, go, keep, scratch₂) = on_more begin (piece b p) end r₁ in
            let cut = fragment_size_full (aligned b) (length p) part in
            let full : next ≡ block_size = omega (arith, cut, aligned-le b h.within) in
            let place_eq : aligned b + (9 + length (piece b p)) ≡ next =
              omega (arith, length-piece b p) in
            let more : behind fuel b p ≡ tail = ground (arith, cut) in
            let size : end + length tail ≡ o + length (encode_loop (suc fuel) b begin p) =
              omega (arith, length-encode_loop fuel b begin p, length-piece b p, ap length more) in
            let h₂ : At r₂ next end (tail ++ rest) = keep next end (tail ++ rest) (
              subst (λ (n : ℕ). At r₁ n end (tail ++ rest)) place_eq
                (subst (λ (l : Bytes). At r₁ (aligned b + (9 + length (piece b p))) end (l ++ rest))
                  more behind₁)) in
            let ih =
              logical F fuel next end false (drop frag p) rest r₂ h₂
                (in_step b o (9 + length (piece b p)) h.within e
                  ∙ ap (λ (n : ℕ). n % block_size) place_eq)
                (rw full (unfold aligned in ground (arith, length-drop frag p, cut, enough)))
                (omega (arith, size, big, length-encode_loop fuel b begin p)) in
            record {
              reader = ih.reader;
              b = ih.b;
              result =
                  loop_step F fill (not begin) r r₁ (piece b p) (kind b begin p) end back.result
                  ∙ continue-inside (record_loop F fill true) r₂
                      (on_fragment (not begin) (piece b p) (kind b begin p) end r₁)
                      (ap (λ (t : ℕ). on_fragment (not begin) (piece b p) t end r₁) type ∙ go)
                  ∙ ih.result
                  ∙ ap (λ (l : Bytes). (payload l, ih.reader))
                      (ap (λ (s : Bytes). s ++ drop frag p)
                          (scratch₂
                            ∙ ap (λ (s : Bytes). s ++ piece b p)
                                (Scratch-same begin r r₁ back.scratch))
                        ∙ append_assoc (Scratch begin r) (piece b p) (drop frag p)
                        ∙ ap (◌++◌ (Scratch begin r)) (take-append-drop frag p));
              at = rw (← size) ih.at;
              step = rw (← size) ih.step;
              good = ih.good ∙ size;
            }
      ]
