-- ===== src/Db/Scan.antt =====
-- `MergingIterator`, include/bedrockkv/iterator.h, and `DB::Scan`, src/db.cpp. An iterator is the
-- entries from its position on.
pub mod Choice
pub mod Merging
pub mod Reads
pub mod Ascending
pub mod Selection
pub mod Database
use bedrockkv.Prelude.{
  ℕ, zero, suc, ◌+◌, Bool, true, false, not, ◌&&◌, Option, none, some, List, [], ◌∷◌, ◌++◌, map,
  Bytes, ltb, leb, ◌==◌, if◌then◌else◌,
}
use bedrockkv.Prelude.Order.{bytes_lt, bytes_eq}
use bedrockkv.Status.{Status, ok, Result, done, failed}
use bedrockkv.Key.{type_value}
use bedrockkv.Key.Laws.{entry_less}
use bedrockkv.Db.Compaction.{Entry, new_user}
use bedrockkv.Db.Read.{Table, Version, read_point}

-- `less_` on the entries that two iterators stand at: by the user key, then the larger tag first,
-- which is the sequence number above the byte of the type.
unfoldable pub less : Entry → Entry → Bool
less a b =
    if bytes_eq a.user b.user && a.seq == b.seq
    then ltb b.type a.type
    else entry_less a.user a.seq b.user b.seq

-- `Seek` of one iterator: the entries that the target does not stand before are passed.
unfoldable pub seek : Bytes → ℕ → List Entry → List Entry
seek user seq [] = []
seek user seq (e ∷ es) =
    let rest = seek user seq es in if entry_less e.user e.seq user seq then rest else e ∷ es

-- `current_` while `FindSmallest` walks: the place of an iterator and the entry it stands at.
abbrev pub Current : Type 0
Current = Option (ℕ × Entry)

unfoldable pub is_smaller : Entry → Current → Bool
unfolding less
is_smaller e none = true
is_smaller e (some c) = less e c.1

unfoldable pub find_smallest : ℕ → Current → List (List Entry) → Current
unfolding is_smaller
find_smallest i current [] = current
find_smallest i current ([] ∷ children) = find_smallest (suc i) current children
find_smallest i current ((e ∷ es) ∷ children) =
    find_smallest (suc i) (if is_smaller e current then some (i, e) else current) children

-- `Next` of the iterator at a place.
unfoldable pub advance : ℕ → List (List Entry) → List (List Entry)
advance i [] = []
advance zero ([] ∷ children) = [] ∷ children
advance zero ((e ∷ es) ∷ children) = es ∷ children
advance (suc i) (c ∷ children) = c ∷ advance i children

-- The entries that a merging iterator shows, `Next` by `Next`. Each round takes an entry.
unfoldable pub merge_continue : (ℕ → List Entry) → Current → List Entry
merge_continue next none = []
merge_continue next (some c) = c.1 ∷ next c.0

unfoldable pub merged_loop : ℕ → List (List Entry) → List Entry
unfolding merge_continue find_smallest advance
merged_loop zero children = []
merged_loop (suc fuel) children =
    merge_continue (λ i. merged_loop fuel (advance i children)) (find_smallest 0 none children)

abbrev pub total : List (List Entry) → ℕ
total [] = 0
total ([] ∷ children) = total children
total ((e ∷ es) ∷ children) = suc (total (es ∷ children))

unfoldable pub merged : List (List Entry) → List Entry
unfolding merged_loop
merged children = merged_loop (suc (total children)) children

-- The files of a level that overlap the range.
unfoldable pub in_range : Bytes → Bytes → List Table → List Table
in_range begin end_key [] = []
in_range begin end_key (r ∷ rs) =
    let rest = in_range begin end_key rs in
    if bytes_lt r.largest_user_key begin
    then rest
    else if not (bytes_lt r.smallest_user_key end_key)
    then []
    else r ∷ rest

abbrev pub flat : {A : Type 0} → List (List A) → List A
flat [] = []
flat (xs ∷ xss) = xs ++ flat xss

-- The iterators of a scan; `contents` gives the entries of a table.
unfoldable pub children :
    (Table → List Entry)
    → List Entry
    → Option (List Entry)
    → Version
    → Bytes
    → Bytes
    → List (List Entry)
unfolding in_range
children contents mem imm v begin end_key =
    mem
    ∷ (elim imm [ none ↦ [] | some es ↦ es ∷ [] ]
        ++ (map contents v.l0 ++ map contents (flat (map (in_range begin end_key) v.levels))))

-- `has_user`, `current_user` and `current_emitted`
pub record ScanState : Type 0 where
  pub current_user : Option Bytes
  pub current_emitted : Bool

abbrev pub scan_start : ScanState
scan_start = record { current_user = none; current_emitted = false }

unfoldable pub scan_enter : ScanState → Entry → ScanState
unfolding new_user
scan_enter s e =
    if new_user s.current_user e.user
    then record { current_user = some e.user; current_emitted = false }
    else s

-- The calls of `fn`, and the status that the scan returns.
abbrev pub Calls : Type 0
Calls = List (Bytes × Bytes) × Status

unfoldable pub emit : Bytes → Result Bytes → Calls → Calls
emit user (failed s) rest = ([], s)
emit user (done value) rest = ((user, value) ∷ rest.0, rest.1)

-- One round at an entry, with what the rounds behind it give from either state.
unfoldable pub scan_entry :
    (Bytes → Result Bytes) → ℕ → ScanState → Entry → (ScanState → Calls) → Calls
unfolding emit
scan_entry resolve seq s e next =
    if s.current_emitted
    then next s
    else if leb e.seq seq
    then if e.type == type_value
      then emit e.user (resolve e.value) (next (record s { current_emitted = true }))
      else next (record s { current_emitted = true })
    else next s

-- The loop over the merged entries. `resolve` is what `MaybeResolvePointer` makes of a value.
unfoldable pub scan_loop : (Bytes → Result Bytes) → Bytes → ℕ → ScanState → List Entry → Calls
unfolding scan_enter scan_entry
scan_loop resolve end_key seq s [] = ([], ok)
scan_loop resolve end_key seq s (e ∷ es) =
    let rest =
      scan_entry resolve seq (scan_enter s e) e (λ t. scan_loop resolve end_key seq t es) in
    if not (bytes_lt e.user end_key) then ([], ok) else rest

-- `DB::Scan`
unfoldable pub scan :
    (Bytes → Result Bytes)
    → (Table → List Entry)
    → List Entry
    → Option (List Entry)
    → Version
    → Bytes
    → Bytes
    → Option ℕ
    → Calls
unfolding scan_loop children
scan resolve contents mem imm v begin end_key snapshot =
    let seq = read_point snapshot in
    scan_loop resolve end_key seq scan_start
      (merged (map (seek begin seq) (children contents mem imm v begin end_key)))
