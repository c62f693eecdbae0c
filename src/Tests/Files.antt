-- ===== src/Tests/Files.antt =====
-- Snapshots and files at concrete inputs.
use bedrockkv.Prelude.{◌≡◌, ◌++◌, refl, false, not, List, [], ◌∷◌, arith, All, ltb}
use bedrockkv.Prelude.Text.{codes}
use bedrockkv.Prelude.Order.{bytes_eq}
use bedrockkv.Key.Laws.{entry_less}
use bedrockkv.Vlog.{file_name}
use bedrockkv.Db.Compaction.{Entry, compact}
use bedrockkv.Db.Compaction.Visible.{visible, read, IsMerged}
use bedrockkv.Db.Snapshots.{Snapshot, smallest_snapshot_seq, compact-snapshots}
use bedrockkv.Db.Files.{sst_file_name, is_listed, is_orphan}
use bedrockkv.Db.Write.Calls.{log_file_name}
use bedrockkv.Db.Files.Live.{is_orphan-names}

abbrev versions : List Entry
versions =
    record { user = codes "k"; seq = 9; type = 0; value = [] }
    ∷ record { user = codes "k"; seq = 4; type = 1; value = codes "v" }
    ∷ record { user = codes "k"; seq = 2; type = 1; value = codes "u" }
    ∷ []

abbrev older_versions : List Entry
older_versions = record { user = codes "k"; seq = 1; type = 1; value = codes "t" } ∷ []

versions-IsMerged : IsMerged versions
unfolding entry_less bytes_eq
versions-IsMerged = ((refl, (refl, tt)), ((refl, tt), (tt, tt)))

abbrev two_snapshots : List Snapshot
two_snapshots = record { handle = 1; seq = 9 } ∷ record { handle = 2; seq = 5 } ∷ []

compact-snapshots_example :
    All
      (λ (s : Snapshot).
        read (
          visible (codes "k") s.seq (
            [] ++ (compact (smallest_snapshot_seq two_snapshots) false versions ++ older_versions)))
        ≡ read (visible (codes "k") s.seq ([] ++ (versions ++ older_versions))))
      two_snapshots
compact-snapshots_example =
    compact-snapshots two_snapshots false (codes "k") [] versions older_versions versions-IsMerged
      (λ h. absurd (cc h))

is_orphan-names_example :
    (is_orphan (3 ∷ []) 5 (4 ∷ []) (sst_file_name 3) ≡ not (is_listed 3 (3 ∷ [])))
    × (is_orphan (3 ∷ []) 5 (4 ∷ []) (log_file_name 3) ≡ ltb 3 5)
    × (is_orphan (3 ∷ []) 5 (4 ∷ []) (file_name 3) ≡ not (is_listed 3 (4 ∷ [])))
is_orphan-names_example = is_orphan-names (3 ∷ []) 5 (4 ∷ []) 3 (omega arith)
