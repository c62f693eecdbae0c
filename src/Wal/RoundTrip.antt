-- ===== src/Wal/RoundTrip.antt =====
-- `ReadRecord` on what `EncodeRecord` wrote, and a whole log read back.
use bedrockkv.Prelude.{
  ℕ, suc, ◌+◌, ◌%◌, ◌≤◌, ◌≡◌, refl, ap, sym, ◌∙◌, subst, true, inl, inr, Bool-cases, [], ◌++◌,
  arith, Bytes, length, take, drop, replicate, ◌==◌, length-append,
}
use bedrockkv.Wal.{block_size, physical_record, padding, encode_loop, encode_record}
use bedrockkv.Wal.Reader.{Reader, Fill, IsFaithful, payload, read_record, fresh}
use bedrockkv.Wal.Position.{At, left_in_buffer}
use bedrockkv.Wal.Record.{Enough}
use bedrockkv.Wal.Logical.{logical}

-- The reader has parsed the first `o` bytes of a log, and `rest` is what is left.
pub record Stands (r : Reader) (o : ℕ) (rest : Bytes) : Type 0 where
  pub b : ℕ
  pub at : At r b o rest
  pub step : o % block_size ≡ b % block_size

pub fresh-Stands : (file : Bytes) → Stands (fresh file) 0 file
fresh-Stands file = record {
  b = block_size;
  at = record {
    within = omega arith;
    in_buffer = unfold drop take in refl;
    in_file = unfold drop in refl;
    at_eof = λ t. absurd (ground (arith, t));
    pos_le = omega arith;
    counted = omega arith;
    offset = refl;
  };
  step = refl;
}

-- At the end of a block the writer does what it does at the start of one.
block_start :
    (n : ℕ) (p : Bytes) → encode_loop (suc n) block_size true p ≡ encode_loop (suc n) 0 true p
unfolding encode_loop padding physical_record replicate
block_start n p = refl

module _ (fill : Bytes → Fill) (faithful : IsFaithful fill) where
  clear_scratch :
      (r : Reader) (b o : ℕ) (rest : Bytes)
      → At r b o rest
      → At (record r { scratch = [] }) b o rest
  clear_scratch r b o rest h = record {
    within = h.within;
    in_buffer = h.in_buffer;
    in_file = h.in_file;
    at_eof = h.at_eof;
    pos_le = h.pos_le;
    counted = h.counted;
    offset = h.offset;
  }

  same_place :
      (p : Bytes) (o b : ℕ)
      → b ≤ block_size
      → o % block_size ≡ b % block_size
      → encode_record p o ≡ encode_loop (length p + 2) b true p
  unfolding encode_record
  same_place p o b within e = elim (Bool-cases (b == block_size)) [
    | inl h ↦
        let at_end : b ≡ block_size = ground (arith, h) in
        let at_start : o % block_size ≡ 0 = e ∙ ap (λ (n : ℕ). n % block_size) at_end in
        let more : length p + 2 ≡ suc (length p + 1) = omega arith in
        rw (at_end, at_start, more) (sym (block_start (length p + 1) p))
    | inr h ↦ ap (λ (n : ℕ). encode_loop (length p + 2) n true p) (ground (arith, e, within, h))
  ]

  Enough-fuel : (b : ℕ) (p : Bytes) → Enough (length p + 2) b p
  Enough-fuel b p = ground arith

  -- A reader that stands at the record of a payload, in any place of a block, returns the payload
  -- and stands behind it.
  pub read_record-encode_record :
      (r : Reader) (o : ℕ) (p rest : Bytes)
      → Stands r o (encode_record p o ++ rest)
      → (r' : Reader) × (read_record fill r ≡ (payload p, r'))
        × Stands r' (o + length (encode_record p o)) rest
        × (r'.last_good_end ≡ o + length (encode_record p o))
  unfolding read_record
  read_record-encode_record r o p rest h =
      let same : encode_record p o ≡ encode_loop (length p + 2) h.b true p =
        same_place p o h.b h.at.within h.step in
      let here : At (record r { scratch = [] }) h.b o
          (encode_loop (length p + 2) h.b true p ++ rest) =
        clear_scratch r h.b o _ (subst (λ (l : Bytes). At r h.b o (l ++ rest)) same h.at) in
      let fuel : length r.file + length r.buffer + 2 ≡ suc (length r.file + length r.buffer + 1) =
        omega arith in
      let got =
        logical fill faithful (length r.file + length r.buffer + 2) (length p + 2) h.b o true p rest
          (record r { scratch = [] }) here h.step (Enough-fuel h.b p)
          (omega (
            arith,
            left_in_buffer (record r { scratch = [] }) h.b o
                (encode_loop (length p + 2) h.b true p ++ rest) here,
            length-append (encode_loop (length p + 2) h.b true p) rest,
          )) in
      (
        got.reader,
        got.result,
        rw same (record { b = got.b; at = got.at; step = got.step }),
        rw same got.good,
      )
