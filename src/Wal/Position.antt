-- ===== src/Wal/Position.antt =====
-- Where a reader stands in a log, and what one round of `ReadPhysicalRecord` does there.
use bedrockkv.Prelude.{
  ℕ, ◌+◌, ◌-◌, ◌≤◌, ◌<◌, ◌≡◌, refl, ap, sym, ◌∙◌, true, inl, inr, Bool-cases, [], ◌∷◌, ◌++◌,
  append_assoc, arith, Bytes, IsU32, length, take, drop, byte_at, ltb, length-append, length-take,
  length-drop, take-append, drop-append, drop-drop, take_past, drop_past,
}
use bedrockkv.Encoding.{fixed32, get_fixed32}
use bedrockkv.Encoding.RoundTrip.{get_fixed32-fixed32}
use bedrockkv.Crc32.{crc32}
use bedrockkv.Crc32.Streaming.{crc32-IsU32}
use bedrockkv.Wal.{block_size, header_size, physical_record}
use bedrockkv.Wal.Reader.{Reader, Fill, IsFaithful, again, give, fragment, physical_step}

-- The reader stands at offset `b` of a block and at offset `o` of the log, and `rest` is all that
-- it has not parsed. Behind a whole block it stands at offset `block_size` of that block.
pub record At (r : Reader) (b o : ℕ) (rest : Bytes) : Type 0 where
  pub within : b ≤ block_size
  pub in_buffer : drop r.pos r.buffer ≡ take (block_size - b) rest
  pub in_file : r.file ≡ drop (block_size - b) rest
  pub at_eof : r.eof ≡ true → length rest < block_size - b
  pub pos_le : r.pos ≤ length r.buffer
  pub counted : length r.buffer ≤ r.bytes_read
  pub offset : r.bytes_read + r.pos ≡ o + length r.buffer

-- The buffer holds what the block has left.
pub left_in_buffer :
    (r : Reader) (b o : ℕ) (rest : Bytes)
    → At r b o rest
    → (length r.buffer - r.pos ≤ block_size - b)
      × (length r.buffer - r.pos + length r.file ≡ length rest)
left_in_buffer r b o rest h =
    let e = ap length h.in_buffer in
    let f = ap length h.in_file in
    (
      omega (arith, e, length-drop r.pos r.buffer, length-take (block_size - b) rest),
      omega (
        arith,
        e,
        f,
        length-drop r.pos r.buffer,
        length-take (block_size - b) rest,
        length-drop (block_size - b) rest,
      ),
    )

-- The reader after a refill, and behind a fragment.
abbrev pub refilled : Reader → Reader
refilled r = record r {
  buffer = take block_size r.file;
  pos = 0;
  eof = ltb (length r.file) block_size;
  bytes_read = r.bytes_read + length (take block_size r.file);
  file = drop block_size r.file;
}

abbrev pub parsed : Reader → Bytes → Reader
parsed r frag = record r { pos = r.pos + 9 + length frag }

module _ (fill : Bytes → Fill) (faithful : IsFaithful fill) where
  -- A block tail too short for a header is dropped, and the next block read.
  pub step_refill :
      (r : Reader) (b o : ℕ) (rest : Bytes)
      → At r b o rest
      → block_size - b < header_size
      → block_size - b < length rest
      → (physical_step fill r ≡ again (refilled r))
        × At (refilled r) 0 (o + (block_size - b)) (drop (block_size - b) rest)
  unfolding physical_step
  step_refill r b o rest h short more = elim (Bool-cases r.eof) [
    | inl e ↦ absurd (omega (arith, h.at_eof e))
    | inr e ↦ (
      rw (e, faithful r.file) (ground (arith, size, in_tail, length-take block_size r.file)),
      record {
        within = omega arith;
        in_buffer = unfold drop in ap (take block_size) h.in_file;
        in_file = ap (drop block_size) h.in_file;
        at_eof = λ t. ground (arith, size, t, length-drop (block_size - b) rest);
        pos_le = omega arith;
        counted = omega arith;
        offset = omega (arith, h.offset, in_tail, size, left.1);
      },
    )
  ]
    where
      left :
          (length r.buffer - r.pos ≤ block_size - b)
          × (length r.buffer - r.pos + length r.file ≡ length rest)
      left = left_in_buffer r b o rest h

      size : length r.file ≡ length rest - (block_size - b)
      size = omega (arith, ap length h.in_file, length-drop (block_size - b) rest)

      in_tail : length r.buffer - r.pos ≡ block_size - b
      in_tail = omega (arith, left, size)

module _ (type : ℕ) (frag : Bytes) where
  pub length-physical_record : length (physical_record type frag) ≡ 9 + length frag
  unfolding physical_record fixed32
  length-physical_record = omega arith

  type-physical_record : (more : Bytes) → byte_at (physical_record type frag ++ more) 8 ≡ type
  unfolding physical_record fixed32 byte_at
  type-physical_record more = refl

  length_field :
      (more : Bytes)
      → IsU32 (length frag)
      → get_fixed32 (physical_record type frag ++ more) ≡ length frag
  unfolding physical_record
  length_field more h =
      ap get_fixed32 (
        append_assoc (fixed32 (length frag))
          (fixed32 (crc32 frag (crc32 (type ∷ []) 0)) ++ (type ∷ frag)) more)
      ∙ get_fixed32-fixed32 (length frag)
          ((fixed32 (crc32 frag (crc32 (type ∷ []) 0)) ++ (type ∷ frag)) ++ more) h

  crc_field :
      (more : Bytes)
      → get_fixed32 (drop 4 (physical_record type frag ++ more)) ≡ crc32 frag (crc32 (type ∷ []) 0)
  unfolding physical_record fixed32 drop
  crc_field more =
      get_fixed32-fixed32 (crc32 frag (crc32 (type ∷ []) 0)) (type ∷ (frag ++ more))
        (crc32-IsU32 frag (crc32 (type ∷ []) 0) (crc32-IsU32 (type ∷ []) 0 (omega arith)))

  body_field :
      (more : Bytes) → take (length frag) (drop 9 (physical_record type frag ++ more)) ≡ frag
  body_field more = ap (take (length frag)) body ∙ take-append (length frag) frag more refl
    where
      body : drop 9 (physical_record type frag ++ more) ≡ frag ++ more
      body = unfold physical_record fixed32 drop in refl

module _ (fill : Bytes → Fill) (r : Reader) (b o type : ℕ) (frag rest : Bytes)
    (h : At r b o (physical_record type frag ++ rest)) (known : 1 ≤ type)
    (fits : 9 + length frag ≤ block_size - b) where
  more : Bytes
  more = take (block_size - b - (9 + length frag)) rest

  here : drop r.pos r.buffer ≡ physical_record type frag ++ more
  unfolding more
  here =
      h.in_buffer
      ∙ take_past (block_size - b) (physical_record type frag) rest
          (omega (arith, length-physical_record type frag))
      ∙ ap (λ (n : ℕ). physical_record type frag ++ take (block_size - b - n) rest)
          (length-physical_record type frag)

  enough : r.pos + (9 + length frag) ≤ length r.buffer
  enough = omega (
    arith,
    ap length here,
    length-drop r.pos r.buffer,
    length-append (physical_record type frag) more,
    length-physical_record type frag,
  )

  body_here : take (length frag) (drop (r.pos + header_size) r.buffer) ≡ frag
  body_here =
      ap (take (length frag)) (sym (drop-drop 9 r.pos r.buffer) ∙ ap (drop 9) here)
      ∙ body_field type frag more

  -- At a whole record the round returns its fragment, and the reader stands behind it.
  pub step_record :
      (physical_step fill r ≡ give (fragment frag type (o + (9 + length frag))) (parsed r frag))
      × At (parsed r frag) (b + (9 + length frag)) (o + (9 + length frag)) rest
  step_record = (given, placed)
    where
      end_offset :
          r.bytes_read - length r.buffer + (r.pos + 9 + length frag) ≡ o + (9 + length frag)
      end_offset = omega (arith, h.offset, h.counted)

      given :
          physical_step fill r ≡ give (fragment frag type (o + (9 + length frag))) (parsed r frag)
      given =
          unfold physical_step in
          rw
            (
              here,
              type-physical_record type frag more,
              length_field type frag more (omega arith),
              crc_field type frag more,
              body_here,
              end_offset,
            )
            (ground (arith, enough))

      buffer_rest :
          drop (r.pos + 9 + length frag) r.buffer ≡ take (block_size - (b + (9 + length frag))) rest
      buffer_rest =
          ap (λ (n : ℕ). drop n r.buffer) (omega arith)
          ∙ sym (drop-drop (9 + length frag) r.pos r.buffer)
          ∙ ap (drop (9 + length frag)) here
          ∙ drop-append (9 + length frag) (physical_record type frag) more
              (sym (length-physical_record type frag))
          ∙ unfold more in ap (λ (n : ℕ). take n rest) (omega arith)

      file_rest : r.file ≡ drop (block_size - (b + (9 + length frag))) rest
      file_rest =
          h.in_file
          ∙ drop_past (block_size - b) (physical_record type frag) rest
              (omega (arith, length-physical_record type frag))
          ∙ ap (λ (n : ℕ). drop n rest) (omega (arith, length-physical_record type frag))

      placed : At (parsed r frag) (b + (9 + length frag)) (o + (9 + length frag)) rest
      placed = record {
        within = omega arith;
        in_buffer = buffer_rest;
        in_file = file_rest;
        at_eof = λ e. omega (
          arith,
          h.at_eof e,
          length-append (physical_record type frag) rest,
          length-physical_record type frag,
        );
        pos_le = omega (arith, enough);
        counted = h.counted;
        offset = omega (arith, h.offset);
      }
