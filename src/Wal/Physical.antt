-- ===== src/Wal/Physical.antt =====
-- `ReadPhysicalRecord` at a physical record of the writer, its padding included, and at the end.
use bedrockkv.Prelude.{
  ℕ, suc, ◌+◌, ◌-◌, ◌*◌, ◌≤◌, ◌<◌, ◌≡◌, refl, ap, sym, ◌∙◌, subst, true, false, inl, inr,
  Bool-cases, [], ◌++◌, arith, Bytes, length, take, drop, replicate, leb, length-append,
  length-replicate, drop-append, length-drop, drop_all,
}
use bedrockkv.Wal.{block_size, header_size, physical_record, is_short_tail, padding, aligned}
use bedrockkv.Wal.Reader.{
  Reader, Fill, filled, IsFaithful, Physical, again, give, fragment, end_of_file, refill,
  physical_step, physical_continue, physical_loop, read_physical_record,
}
use bedrockkv.Wal.Position.{
  At, left_in_buffer, length-physical_record, refilled, step_refill, parsed, step_record,
}

-- What a call returned, and that it left the two fields of `ReadRecord` alone.
pub record Returned (fill : Bytes → Fill) (r : Reader) (p : Physical) (r' : Reader) : Type 0 where
  pub result : read_physical_record fill r ≡ (p, r')
  pub scratch : r'.scratch ≡ r.scratch
  pub last_good : r'.last_good_end ≡ r.last_good_end

loop_give :
    (fuel : ℕ) (fill : Bytes → Fill) (r r' : Reader) (p : Physical)
    → physical_step fill r ≡ give p r'
    → physical_loop (suc fuel) fill r ≡ (p, r')
unfolding physical_loop physical_continue
loop_give fuel fill r r' p h = rw h refl

loop_again :
    (fuel : ℕ) (fill : Bytes → Fill) (r r' : Reader)
    → physical_step fill r ≡ again r'
    → physical_loop (suc fuel) fill r ≡ physical_loop fuel fill r'
unfolding physical_loop physical_continue
loop_again fuel fill r r' h = rw h refl

give_first :
    (fill : Bytes → Fill) (r r' : Reader) (p : Physical)
    → physical_step fill r ≡ give p r'
    → read_physical_record fill r ≡ (p, r')
unfolding read_physical_record
give_first fill r r' p h =
    let e : 2 * length r.file + 4 ≡ suc (2 * length r.file + 3) = omega arith in
    rw e (loop_give (2 * length r.file + 3) fill r r' p h)

give_second :
    (fill : Bytes → Fill) (r r₁ r' : Reader) (p : Physical)
    → physical_step fill r ≡ again r₁
    → physical_step fill r₁ ≡ give p r'
    → read_physical_record fill r ≡ (p, r')
unfolding read_physical_record
give_second fill r r₁ r' p h k =
    let e : 2 * length r.file + 4 ≡ suc (suc (2 * length r.file + 2)) = omega arith in
    rw e (
      loop_again (suc (2 * length r.file + 2)) fill r r₁ h
      ∙ loop_give (2 * length r.file + 2) fill r₁ r' p k)

module _ (fill : Bytes → Fill) (faithful : IsFaithful fill) (r : Reader) (b o type : ℕ)
    (frag rest : Bytes) (h : At r b o (padding b ++ (physical_record type frag ++ rest)))
    (known : 1 ≤ type) (fits : 9 + length frag ≤ block_size - aligned b) where
  abbrev Outcome : Type 0
  Outcome =
      (r' : Reader) × Returned fill r
        (fragment frag type (o + length (padding b) + (9 + length frag))) r'
      × At r' (aligned b + (9 + length frag)) (o + length (padding b) + (9 + length frag)) rest

  in_block : is_short_tail b ≡ false → Outcome
  in_block e =
      let no_pad : padding b ≡ [] = unfold padding in rw e refl in
      let same : aligned b ≡ b = unfold aligned in rw e refl in
      let zero_pad : o + 0 ≡ o = omega arith in
      let h' : At r b o (physical_record type frag ++ rest) =
        subst (λ (l : Bytes). At r b o (l ++ (physical_record type frag ++ rest))) no_pad h in
      let (given, placed) =
        step_record fill r b o type frag rest h' known
          (subst (λ (n : ℕ). 9 + length frag ≤ block_size - n) same fits) in
      rw (no_pad, same, zero_pad)
        (
          parsed r frag,
          record { result = give_first fill r _ _ given; scratch = refl; last_good = refl },
          placed,
        )

  past_block : is_short_tail b ≡ true → Outcome
  past_block e =
      let pad : padding b ≡ replicate (block_size - b) 0 = unfold padding in rw e refl in
      let start : aligned b ≡ 0 = unfold aligned in rw e refl in
      let size : length (padding b) ≡ block_size - b =
        ap length pad ∙ length-replicate (block_size - b) 0 in
      let (refill, placed) =
        step_refill fill faithful r b o (padding b ++ (physical_record type frag ++ rest)) h
          (ground arith)
          (omega (
            arith,
            size,
            length-append (padding b) (physical_record type frag ++ rest),
            length-append (physical_record type frag) rest,
            length-physical_record type frag,
          )) in
      let skipped : drop (block_size - b) (padding b ++ (physical_record type frag ++ rest))
          ≡ physical_record type frag ++ rest =
        drop-append (block_size - b) (padding b) (physical_record type frag ++ rest) (sym size) in
      let h' : At (refilled r) 0 (o + (block_size - b)) (physical_record type frag ++ rest) =
        subst (At (refilled r) 0 (o + (block_size - b))) skipped placed in
      let (given, behind) =
        step_record fill (refilled r) 0 (o + (block_size - b)) type frag rest h' known
          (subst (λ (n : ℕ). 9 + length frag ≤ block_size - n) start fits) in
      rw (size, start)
        (
          parsed (refilled r) frag,
          record {
            result = give_second fill r (refilled r) _ _ refill given;
            scratch = refl;
            last_good = refl;
          },
          behind,
        )

  -- A physical record behind its padding is returned with its type and its end in the log.
  pub read_physical_record-physical_record : Outcome
  read_physical_record-physical_record = elim (Bool-cases (is_short_tail b)) [
    | inl e ↦ past_block e
    | inr e ↦ in_block e
  ]

at_end_of :
    (fill : Bytes → Fill) (r : Reader) (b o : ℕ) (rest : Bytes)
    → At r b o rest
    → length rest < header_size
    → r.eof ≡ true
    → physical_step fill r ≡ give end_of_file r
unfolding physical_step
at_end_of fill r b o rest h short e = rw e (ground (arith, left_in_buffer r b o rest h, h.pos_le))

module _ (fill : Bytes → Fill) (r : Reader) (b o : ℕ) (rest : Bytes) (faithful : IsFaithful fill)
    (h : At r b o rest) (short : length rest < header_size) where
  no_more :
      r.eof ≡ false
      → length rest ≤ block_size - b
      → physical_step fill r
        ≡ give end_of_file (record r { pos = length r.buffer; eof = true; file = [] })
  unfolding physical_step
  no_more e inside = rw (e, empty) (ground (arith, left_in_buffer r b o rest h, h.pos_le))
    where
      empty : fill r.file ≡ filled [] true []
      empty =
          ap fill (h.in_file ∙ drop_all (block_size - b) rest inside)
          ∙ faithful []
          ∙ unfold take drop in refl

  -- At fewer than nine bytes before the end of the log the call reports the end of the file.
  pub read_physical_record_short : (r' : Reader) × Returned fill r end_of_file r'
  read_physical_record_short = elim (Bool-cases r.eof) [
    | inl e ↦ (
      r,
      record {
        result = give_first fill r r end_of_file (at_end_of fill r b o rest h short e);
        scratch = refl;
        last_good = refl;
      },
    )
    | inr e ↦ elim (Bool-cases (leb (length rest) (block_size - b))) [
      | inl inside ↦ (
        record r { pos = length r.buffer; eof = true; file = [] },
        record {
          result = give_first fill r _ end_of_file (no_more e (ground (arith, inside)));
          scratch = refl;
          last_good = refl;
        },
      )
      | inr across ↦
          let (refill, placed) =
            step_refill fill faithful r b o rest h (ground (arith, across))
              (ground (arith, across)) in
          let left = left_in_buffer r b o rest h in
          let ended : physical_step fill (refilled r) ≡ give end_of_file (refilled r) =
            at_end_of fill (refilled r) 0 (o + (block_size - b)) (drop (block_size - b) rest) placed
              (omega (arith, length-drop (block_size - b) rest)) (ground (arith, left)) in
          (
            refilled r,
            record {
              result = give_second fill r (refilled r) (refilled r) end_of_file refill ended;
              scratch = refl;
              last_good = refl;
            },
          )
    ]
  ]
