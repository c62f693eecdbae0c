-- ===== src/Db/Manifest.antt =====
-- The records of the MANIFEST, src/db.cpp and include/bedrockkv/sstable.h: `DB::WriteManifest`
-- writes them, `ParseManifest` reads them.
pub mod RoundTrip
use bedrockkv.Prelude.{
  ℕ, zero, suc, ◌+◌, ◌%◌, ◌^◌, Bool, true, false, not, ◌||◌, Option, none, some, List, [], ◌∷◌,
  ◌++◌, Bytes, length, take, drop, byte_at, ltb, leb, ◌==◌, if◌then◌else◌,
}
use bedrockkv.Encoding.{fixed32, fixed64, get_fixed32, get_fixed64}

-- `sst::FileMeta`
pub record FileMeta : Type 0 where
  pub file_number : ℕ
  pub level : ℕ
  pub smallest_seq : ℕ
  pub largest_seq : ℕ
  pub entry_count : ℕ
  pub file_size : ℕ
  pub smallest_key : Bytes
  pub largest_key : Bytes

abbrev pub tag_sst_file : ℕ
tag_sst_file = 1

abbrev pub tag_log_number : ℕ
tag_log_number = 2

abbrev pub tag_vlog_file : ℕ
tag_vlog_file = 3

abbrev pub max_levels : ℕ
max_levels = 7

-- One file of the version, as `WriteManifest` writes it.
unfoldable pub encode_file_meta : FileMeta → Bytes
encode_file_meta m =
    tag_sst_file
    ∷ (fixed64 m.file_number
        ++ (fixed32 m.level
            ++ (fixed64 m.smallest_seq
                ++ (fixed64 m.largest_seq
                    ++ (fixed64 m.entry_count
                        ++ (fixed64 m.file_size
                            ++ (fixed32 (length m.smallest_key % 2 ^ 32)
                                ++ (m.smallest_key
                                    ++ (fixed32 (length m.largest_key % 2 ^ 32)
                                        ++ m.largest_key)))))))))

-- `ParseFileMetaRecord`
unfoldable pub parse_file_meta : Bytes → Option FileMeta
parse_file_meta r =
    let slen = get_fixed32 (drop 45 r) in
    let llen = get_fixed32 (drop (49 + slen) r) in
    if ltb (length r) (49 + 4)
    then none
    else if ltb (length r) (49 + slen + 4)
    then none
    else if not (53 + slen + llen == length r)
    then none
    else some (record {
      file_number = get_fixed64 (drop 1 r);
      level = get_fixed32 (drop 9 r);
      smallest_seq = get_fixed64 (drop 13 r);
      largest_seq = get_fixed64 (drop 21 r);
      entry_count = get_fixed64 (drop 29 r);
      file_size = get_fixed64 (drop 37 r);
      smallest_key = take slen (drop 49 r);
      largest_key = take llen (drop (53 + slen) r);
    })

-- `ManifestState`, with the last numbers that the parser has seen.
pub record Manifest : Type 0 where
  pub files : List FileMeta
  pub vlogs : List ℕ
  pub log_number : Option ℕ
  pub last_file_number : ℕ
  pub last_vlog_number : ℕ

abbrev pub no_manifest : Manifest
no_manifest = record {
  files = [];
  vlogs = [];
  log_number = none;
  last_file_number = 0;
  last_vlog_number = 0;
}

unfoldable pub add_file : Manifest → Option FileMeta → Option Manifest
add_file state none = none
add_file state (some m) =
    if leb m.file_number state.last_file_number || leb max_levels m.level
    then none
    else some (record state { files = state.files ++ m ∷ []; last_file_number = m.file_number })

unfoldable pub add_log_number : Manifest → Bytes → Option Manifest
add_log_number state r =
    if not (length r == 9)
    then none
    else some (record state { log_number = some (get_fixed64 (drop 1 r)) })

unfoldable pub add_vlog : Manifest → Bytes → Option Manifest
add_vlog state r =
    let n = get_fixed64 (drop 1 r) in
    if not (length r == 9)
    then none
    else if leb n state.last_vlog_number
    then none
    else some (record state { vlogs = state.vlogs ++ n ∷ []; last_vlog_number = n })

-- One record in the loop of `ParseManifest`.
unfoldable pub add_manifest_record : Manifest → Bytes → Option Manifest
unfolding add_file parse_file_meta add_log_number add_vlog
add_manifest_record state r =
    if length r == 0
    then none
    else if byte_at r 0 == tag_sst_file
    then add_file state (parse_file_meta r)
    else if byte_at r 0 == tag_log_number
    then add_log_number state r
    else if byte_at r 0 == tag_vlog_file
    then add_vlog state r
    else none

unfoldable pub parse_continue : (Manifest → Option Manifest) → Option Manifest → Option Manifest
parse_continue next none = none
parse_continue next (some state) = next state

-- The loop of `ParseManifest` over the records of the file.
unfoldable pub parse_records : List Bytes → Manifest → Option Manifest
unfolding parse_continue add_manifest_record
parse_records [] state = some state
parse_records (r ∷ rs) state = parse_continue (parse_records rs) (add_manifest_record state r)
