-- ===== src/Db/Manifest/RoundTrip.antt =====
-- A file's record in the MANIFEST is read back.
use bedrockkv.Prelude.{
  ℕ, ◌+◌, ◌%◌, ◌^◌, ◌≡◌, refl, ap, sym, ◌∙◌, some, ◌++◌, arith, Bytes, IsU32, IsU64, length, take,
  drop, length-append, take-append, take_all, drop-append, drop-drop,
}
use bedrockkv.Encoding.{fixed32, fixed64, get_fixed32, get_fixed64}
use bedrockkv.Encoding.RoundTrip.{get_fixed32-fixed32, get_fixed64-fixed64}
use bedrockkv.Db.Manifest.{FileMeta, encode_file_meta, parse_file_meta}

-- All numbers fit their fields.
pub record Fits (m : FileMeta) : Type 0 where
  pub file_number : IsU64 m.file_number
  pub level : IsU32 m.level
  pub smallest_seq : IsU64 m.smallest_seq
  pub largest_seq : IsU64 m.largest_seq
  pub entry_count : IsU64 m.entry_count
  pub file_size : IsU64 m.file_size
  pub smallest_key : IsU32 (length m.smallest_key)
  pub largest_key : IsU32 (length m.largest_key)

module _ (m : FileMeta) (h : Fits m) where
  abbrev r : Bytes
  r = encode_file_meta m

  abbrev slen : ℕ
  slen = length m.smallest_key

  abbrev llen : ℕ
  llen = length m.largest_key

  abbrev last_part : Bytes
  last_part = fixed32 (llen % 2 ^ 32) ++ m.largest_key

  number_field : get_fixed64 (drop 1 r) ≡ m.file_number
  unfolding encode_file_meta drop fixed64 fixed32
  number_field =
      get_fixed64-fixed64 m.file_number
        (fixed32 m.level
          ++ (fixed64 m.smallest_seq
              ++ (fixed64 m.largest_seq
                  ++ (fixed64 m.entry_count
                      ++ (fixed64 m.file_size
                          ++ (fixed32 (slen % 2 ^ 32) ++ (m.smallest_key ++ last_part)))))))
        h.file_number

  level_field : get_fixed32 (drop 9 r) ≡ m.level
  unfolding encode_file_meta drop fixed64 fixed32
  level_field =
      get_fixed32-fixed32 m.level
        (fixed64 m.smallest_seq
          ++ (fixed64 m.largest_seq
              ++ (fixed64 m.entry_count
                  ++ (fixed64 m.file_size
                      ++ (fixed32 (slen % 2 ^ 32) ++ (m.smallest_key ++ last_part))))))
        h.level

  smallest_field : get_fixed64 (drop 13 r) ≡ m.smallest_seq
  unfolding encode_file_meta drop fixed64 fixed32
  smallest_field =
      get_fixed64-fixed64 m.smallest_seq
        (fixed64 m.largest_seq
          ++ (fixed64 m.entry_count
              ++ (fixed64 m.file_size
                  ++ (fixed32 (slen % 2 ^ 32) ++ (m.smallest_key ++ last_part)))))
        h.smallest_seq

  largest_field : get_fixed64 (drop 21 r) ≡ m.largest_seq
  unfolding encode_file_meta drop fixed64 fixed32
  largest_field =
      get_fixed64-fixed64 m.largest_seq
        (fixed64 m.entry_count
          ++ (fixed64 m.file_size ++ (fixed32 (slen % 2 ^ 32) ++ (m.smallest_key ++ last_part))))
        h.largest_seq

  count_field : get_fixed64 (drop 29 r) ≡ m.entry_count
  unfolding encode_file_meta drop fixed64 fixed32
  count_field =
      get_fixed64-fixed64 m.entry_count
        (fixed64 m.file_size ++ (fixed32 (slen % 2 ^ 32) ++ (m.smallest_key ++ last_part)))
        h.entry_count

  size_field : get_fixed64 (drop 37 r) ≡ m.file_size
  unfolding encode_file_meta drop fixed64 fixed32
  size_field =
      get_fixed64-fixed64 m.file_size (fixed32 (slen % 2 ^ 32) ++ (m.smallest_key ++ last_part))
        h.file_size

  keys : drop 49 r ≡ m.smallest_key ++ last_part
  unfolding encode_file_meta drop fixed64 fixed32
  keys = refl

  last_keys : drop (49 + slen) r ≡ last_part
  last_keys =
      sym (drop-drop slen 49 r)
      ∙ ap (drop slen) keys
      ∙ drop-append slen m.smallest_key last_part refl

  largest : drop (53 + slen) r ≡ m.largest_key
  unfolding fixed32
  largest =
      ap (λ (n : ℕ). drop n r) (omega arith)
      ∙ sym (drop-drop 4 (49 + slen) r)
      ∙ ap (drop 4) last_keys
      ∙ unfold drop in refl

  length-r : length r ≡ 53 + slen + llen
  unfolding encode_file_meta fixed64 fixed32
  length-r = omega (arith, length-append m.smallest_key (fixed32 (llen % 2 ^ 32) ++ m.largest_key))

  slen_field : get_fixed32 (drop 45 r) ≡ slen
  unfolding encode_file_meta drop fixed64 fixed32
  slen_field =
      ap (λ (n : ℕ). get_fixed32 (fixed32 n ++ (m.smallest_key ++ last_part)))
        (omega (arith, h.smallest_key))
      ∙ get_fixed32-fixed32 slen (m.smallest_key ++ last_part) h.smallest_key

  llen_field : get_fixed32 (drop (49 + slen) r) ≡ llen
  llen_field =
      ap get_fixed32
        (last_keys ∙ ap (λ (n : ℕ). fixed32 n ++ m.largest_key) (omega (arith, h.largest_key)))
      ∙ get_fixed32-fixed32 llen m.largest_key h.largest_key

  smallest_part : take slen (drop 49 r) ≡ m.smallest_key
  smallest_part = ap (take slen) keys ∙ take-append slen m.smallest_key last_part refl

  largest_part : take llen (drop (53 + slen) r) ≡ m.largest_key
  largest_part = ap (take llen) largest ∙ take_all llen m.largest_key (omega arith)

-- ParseFileMetaRecord reads back the record that WriteManifest writes of a file whose numbers and
-- key lengths fit their fields.
pub parse_file_meta-encode_file_meta :
    (m : FileMeta) → Fits m → parse_file_meta (encode_file_meta m) ≡ some m
unfolding parse_file_meta
parse_file_meta-encode_file_meta m h =
    rw
      (
        slen_field m h,
        llen_field m h,
        number_field m h,
        level_field m h,
        smallest_field m h,
        largest_field m h,
        count_field m h,
        size_field m h,
        smallest_part m h,
        largest_part m h,
        length-r m h,
      )
      (ground arith)
