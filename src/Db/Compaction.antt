-- ===== src/Db/Compaction.antt =====
-- `DB::RunCompaction`, src/db.cpp: which versions of the merged input the output keeps. An entry is
-- what the merging iterator shows: a user key, a tag split into sequence number and type, a value.
pub mod Visible
pub mod Retention
use bedrockkv.Prelude.{
  ℕ, Bool, true, false, not, ◌&&◌, List, [], ◌∷◌, Option, none, some, Bytes, ltb, leb, ◌==◌,
  if◌then◌else◌,
}
use bedrockkv.Prelude.Order.{bytes_eq}
use bedrockkv.Key.{type_deletion}

pub record Entry : Type 0 where
  pub user : Bytes
  pub seq : ℕ
  pub type : ℕ
  pub value : Bytes

-- The variables of the merge loop: `has_user` and `current_user` as an option.
pub record Merge : Type 0 where
  pub current_user : Option Bytes
  pub floor_version_seen : Bool

unfoldable pub new_user : Option Bytes → Bytes → Bool
new_user none user = true
new_user (some current) user = not (bytes_eq user current)

-- The state at an entry, after the test `!has_user || user != current_user`.
unfoldable pub enter_user : Merge → Entry → Merge
unfolding new_user
enter_user m e =
    if new_user m.current_user e.user
    then record { current_user = some e.user; floor_version_seen = false }
    else m

-- `keep`, and `floor_version_seen` after it.
unfoldable pub retain : ℕ → Bool → Merge → Entry → Bool
retain floor bottom m e =
    if ltb floor e.seq
    then true
    else if not m.floor_version_seen
    then not (e.type == type_deletion && bottom)
    else false

unfoldable pub mark_floor : ℕ → Merge → Entry → Merge
mark_floor floor m e = if ltb floor e.seq then m else record m { floor_version_seen = true }

-- The merge loop over the entries in the order of the merging iterator. Splitting the output into
-- files is left out here: the list is what all `builder.Add` calls receive, in order.
unfoldable pub merge_loop : ℕ → Bool → Merge → List Entry → List Entry
unfolding enter_user retain mark_floor
merge_loop floor bottom m [] = []
merge_loop floor bottom m (e ∷ es) =
    let m' = enter_user m e in
    let rest = merge_loop floor bottom (mark_floor floor m' e) es in
    if retain floor bottom m' e then e ∷ rest else rest

abbrev pub start : Merge
start = record { current_user = none; floor_version_seen = false }

unfoldable pub compact : ℕ → Bool → List Entry → List Entry
unfolding merge_loop
compact floor bottom entries = merge_loop floor bottom start entries
