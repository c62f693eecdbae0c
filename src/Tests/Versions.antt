-- ===== src/Tests/Versions.antt =====
-- Compaction and the manifest at concrete inputs.
use Prim.{tt}
use bedrockkv.Prelude.{◌≡◌, refl, true, false, List, [], ◌∷◌, arith}
use bedrockkv.Prelude.Text.{codes}
use mathlib.Core.Option.{some}
use bedrockkv.Db.Manifest.{FileMeta, encode_file_meta, parse_file_meta}
use bedrockkv.Db.Manifest.RoundTrip.{parse_file_meta-encode_file_meta}
use bedrockkv.Db.Compaction.{Entry, compact}
use bedrockkv.Db.Compaction.Visible.{visible, read, IsMerged}
use bedrockkv.Db.Compaction.Retention.{read-compact}
use bedrockkv.Prelude.Order.{bytes_eq, bytes_lt}
use bedrockkv.Key.Laws.{entry_less}

abbrev versions : List Entry
versions =
    record { user = codes "a"; seq = 9; type = 0; value = [] }
    ∷ record { user = codes "a"; seq = 4; type = 1; value = codes "old" }
    ∷ record { user = codes "a"; seq = 2; type = 1; value = codes "older" }
    ∷ record { user = codes "b"; seq = 3; type = 1; value = codes "b" }
    ∷ []

versions-IsMerged : IsMerged versions
versions-IsMerged =
    unfold entry_less bytes_eq bytes_lt in
    ((refl, (refl, (refl, tt))), ((refl, (refl, tt)), ((refl, tt), (tt, tt))))

read-compact_example :
    (read (visible (codes "a") 5 (compact 5 true versions)) ≡ read (visible (codes "a") 5 versions))
    × (visible (codes "a") 5 (compact 5 false versions) ≡ visible (codes "a") 5 versions)
read-compact_example = read-compact 5 5 true (codes "a") versions (omega arith) versions-IsMerged

abbrev meta : FileMeta
meta = record {
  file_number = 12;
  level = 2;
  smallest_seq = 5;
  largest_seq = 900;
  entry_count = 40;
  file_size = 4096;
  smallest_key = codes "a";
  largest_key = codes "zz";
}

parse_file_meta-encode_file_meta_example : parse_file_meta (encode_file_meta meta) ≡ some meta
parse_file_meta-encode_file_meta_example = parse_file_meta-encode_file_meta meta (record {
  file_number = omega arith;
  level = omega arith;
  smallest_seq = omega arith;
  largest_seq = omega arith;
  entry_count = omega arith;
  file_size = omega arith;
  smallest_key = omega arith;
  largest_key = omega arith;
})
