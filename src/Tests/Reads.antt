-- ===== src/Tests/Reads.antt =====
-- Reads, scans and the choice of a compaction at concrete inputs.
use bedrockkv.Prelude.{
  ℕ, ◌≤◌, ◌<◌, ltb, ◌≡◌, refl, Bool, true, false, Option, none, some, List, [], ◌∷◌, arith, Bytes,
  All, take, drop, length, if◌then◌else◌,
}
use bedrockkv.Prelude.Order.{bytes_lt, bytes_eq}
use bedrockkv.Prelude.Text.{codes}
use bedrockkv.Status.{ok, done}
use bedrockkv.Vlog.{encode_value_pointer}
use bedrockkv.Io.{Pread, bytes_read}
use bedrockkv.Key.Laws.{entry_less}
use bedrockkv.Db.Compaction.{Entry}
use bedrockkv.Db.Read.{Table, Version, MemoryGet, lookup_in, resolve, read_point}
use bedrockkv.Db.Read.Runs.{outcome, answered, IsRecent, IsNewest}
use bedrockkv.Db.Read.Newest.{IsLevel, database, lookup_in-IsNewest}
use bedrockkv.Db.Read.Resolution.{uncached, IsCoherent, resolve-uncached}
use bedrockkv.Db.Compaction.Visible.{visible, read}
use bedrockkv.Db.Scan.{less, scan, merged}
use bedrockkv.Db.Scan.Choice.{IsSorted}
use bedrockkv.Db.Scan.Merging.{count, count_all, merged-count}
use bedrockkv.Db.Scan.Reads.{reported, resolved}
use bedrockkv.Db.Scan.Ascending.{IsAscending, IsWithin}
use bedrockkv.Db.Scan.Database.{IsOrdered, all_entries, scan-IsNewest}
use bedrockkv.Db.Pick.{
  TableRef, Layout, Picking, pick_compaction, pick_source, level_at, compaction_needed,
  default_tuning,
}
use bedrockkv.Db.Pick.Walk.{IsInside}
use bedrockkv.Db.Pick.Range.{IsChosenOrApart, pick_compaction-disjoint}
use bedrockkv.Db.Pick.Needed.{compaction_needed-pick_source}
use bedrockkv.Lru.Sharded.{no_entries}

abbrev put_entry : Bytes → ℕ → Bytes → Entry
put_entry user seq value = record { user = user; seq = seq; type = 1; value = value }

abbrev delete_entry : Bytes → ℕ → Entry
delete_entry user seq = record { user = user; seq = seq; type = 0; value = [] }

abbrev in_memory : List Entry
in_memory = delete_entry (codes "a") 9 ∷ put_entry (codes "c") 8 (codes "new") ∷ []

abbrev newer_file : List Entry
newer_file = put_entry (codes "a") 5 (codes "one") ∷ put_entry (codes "c") 4 (codes "old") ∷ []

abbrev older_file : List Entry
older_file = put_entry (codes "c") 2 (codes "older") ∷ []

-- A table that answers from a run of entries.
abbrev table_of : Bytes → Bytes → List Entry → Table
table_of smallest largest es = record {
  smallest_user_key = smallest;
  largest_user_key = largest;
  get = answered es;
}

abbrev two_levels : Version
two_levels = record {
  l0 = table_of (codes "a") (codes "c") newer_file ∷ [];
  levels = (table_of (codes "c") (codes "c") older_file ∷ []) ∷ [];
}

abbrev held_by : Table → List Entry
held_by t = elim (t.smallest_user_key) [
  | [] ↦ []
  | c ∷ cs ↦ if ltb c b'c' then newer_file else older_file
]

abbrev memory : MemoryGet
memory = λ key seq. outcome (visible key seq in_memory)

abbrev all_held : List Entry
all_held = database held_by in_memory [] two_levels

all_held-IsRecent : IsRecent all_held
all_held-IsRecent = (
  ((λ p. omega arith), ((λ p. omega arith), ((λ p. omega arith), ((λ p. omega arith), tt)))),
  (
    ((λ p. omega arith), ((λ p. omega arith), ((λ p. omega arith), tt))),
    (((λ p. omega arith), ((λ p. omega arith), tt)), (((λ p. omega arith), tt), (tt, tt))),
  ),
)

two_levels-IsLevel : All (IsLevel held_by) two_levels.levels
unfolding bytes_lt
two_levels-IsLevel = ((refl, tt, (λ key seq. refl), ((refl, refl), tt), tt), tt)

lookup_in-IsNewest_example :
    (o : Option Entry) × (lookup_in memory none two_levels (codes "c") 4 ≡ (outcome o, ok))
    × IsNewest (codes "c") 4 all_held o
lookup_in-IsNewest_example =
    lookup_in-IsNewest held_by memory none two_levels in_memory [] (λ key seq. refl) refl
      ((λ key seq. refl), tt) two_levels-IsLevel (codes "c") 4 all_held-IsRecent

-- A pointer into a generation that is not there.
abbrev pointer : Bytes
pointer = encode_value_pointer (record { vlog_number = 7; offset = 0; value_size = 3 })

abbrev exact : Pread
exact = λ file n offset. bytes_read (take n (drop offset file))

resolve-uncached_example :
    ((resolve length exact true [] no_entries pointer).0 ≡ uncached length exact [] pointer)
    × IsCoherent length exact [] (resolve length exact true [] no_entries pointer).1
resolve-uncached_example = resolve-uncached length exact [] no_entries pointer (λ i. tt)

sorted_runs : IsOrdered held_by in_memory none two_levels
unfolding less entry_less bytes_lt bytes_eq
sorted_runs = (((refl, tt), (tt, tt)), tt, (((refl, tt), (tt, tt)), tt), (((tt, tt), tt), tt))

from_b : bytes_lt (codes "c") (codes "b") ≡ false
unfolding bytes_lt
from_b = refl

to_d : bytes_lt (codes "c") (codes "d") ≡ true
unfolding bytes_lt
to_d = refl

scan-IsNewest_example :
    (o : Option Entry) × (reported
        (codes "c")
        (scan (λ v. done v) held_by in_memory none two_levels (codes "b") (codes "d") (some 4)).0
      ≡ resolved (λ v. v) (read o))
    × IsNewest
        (codes "c")
        (read_point (some 4))
        (all_entries held_by in_memory none two_levels (codes "b") (codes "d"))
        o
    × IsAscending
        (scan (λ v. done v) held_by in_memory none two_levels (codes "b") (codes "d") (some 4)).0
    × All
        (IsWithin (codes "b") (codes "d"))
        (scan (λ v. done v) held_by in_memory none two_levels (codes "b") (codes "d") (some 4)).0
scan-IsNewest_example =
    scan-IsNewest held_by in_memory none two_levels (codes "b") (codes "d") (codes "c") (some 4)
      (λ v. v) (λ v. done v) from_b to_d sorted_runs two_levels-IsLevel (λ v. refl)

merged-count_example :
    ((p : Entry → Bool)
      → count p (merged (in_memory ∷ newer_file ∷ [])) ≡ count_all p (in_memory ∷ newer_file ∷ []))
    × (All IsSorted (in_memory ∷ newer_file ∷ []) → IsSorted (merged (in_memory ∷ newer_file ∷ [])))
merged-count_example = merged-count (in_memory ∷ newer_file ∷ [])

abbrev file_ref : ℕ → Bytes → Bytes → TableRef
file_ref number lo hi = record {
  smallest_user_key = lo;
  largest_user_key = hi;
  meta = record {
    file_number = number;
    level = 1;
    smallest_seq = 1;
    largest_seq = 9;
    entry_count = 2;
    file_size = 100;
    smallest_key = lo;
    largest_key = hi;
  };
}

abbrev full_l0 : Layout
full_l0 = record {
  l0 =
      file_ref 8 (codes "d") (codes "f")
      ∷ file_ref 7 (codes "a") (codes "b")
      ∷ file_ref 6 (codes "a") (codes "b")
      ∷ file_ref 5 (codes "a") (codes "b")
      ∷ [];
  levels =
      (file_ref 1 (codes "a") (codes "c")
        ∷ file_ref 2 (codes "e") (codes "h")
        ∷ file_ref 3 (codes "i") (codes "k")
        ∷ [])
      ∷ [];
}

pick_compaction-disjoint_example :
    (q : Picking) × ((pick_compaction default_tuning full_l0).1 ≡ some q)
    × All (IsInside q.lo q.hi) (pick_source default_tuning full_l0).inputs
    × All (IsInside q.lo q.hi) q.inputs_b
    × All
        (IsChosenOrApart q)
        (level_at (pick_source default_tuning full_l0).output_level full_l0.levels)
pick_compaction-disjoint_example = pick_compaction-disjoint default_tuning full_l0

compaction_needed-pick_source_example :
    (1 ≤ length (pick_source default_tuning full_l0).inputs)
    × ((pick_source default_tuning full_l0).output_level < length full_l0.levels)
compaction_needed-pick_source_example =
    compaction_needed-pick_source default_tuning false full_l0 (unfold compaction_needed in refl)
      (omega arith) (omega arith)
