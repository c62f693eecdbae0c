-- ===== src/Db/Pick.antt =====
-- The choice of a compaction, src/db.cpp: `CompactionNeeded`, `PickCompaction` and
-- `VlogGcNeeded`.
pub mod Needed
pub mod Walk
pub mod Range
use bedrockkv.Prelude.{
  ℕ, zero, suc, ◌+◌, ◌*◌, ◌%◌, ◌^◌, Bool, true, false, not, ◌&&◌, ◌||◌, Option, none, some, List,
  [], ◌∷◌, ◌++◌, Bytes, length, ltb, leb, max, ◌==◌, if◌then◌else◌,
}
use bedrockkv.Prelude.Order.{bytes_lt}
use bedrockkv.Db.Manifest.{FileMeta}

-- `TableRef`: of the table, the bounds that the choice reads.
pub record TableRef : Type 0 where
  pub smallest_user_key : Bytes
  pub largest_user_key : Bytes
  pub meta : FileMeta

-- `Version`, with the metadata of its tables.
pub record Layout : Type 0 where
  pub l0 : List TableRef
  pub levels : List (List TableRef)

-- The sizes of `Options`.
pub record Tuning : Type 0 where
  pub l0_compaction_trigger : ℕ
  pub level_base_size : ℕ

abbrev pub default_tuning : Tuning
default_tuning = record { l0_compaction_trigger = 4; level_base_size = 10 * 2 ^ 20 }

-- `LevelSize`
unfoldable pub level_size : List TableRef → ℕ
level_size [] = 0
level_size (r ∷ rs) = (r.meta.file_size + level_size rs) % 2 ^ 64

-- The first level but the last that is over its limit, with what stands in it; the limit grows
-- tenfold from level to level, in 64 bits.
unfoldable pub oversized : ℕ → ℕ → List (List TableRef) → Option (ℕ × List TableRef)
unfolding level_size
oversized i limit [] = none
oversized i limit (level ∷ []) = none
oversized i limit (level ∷ next ∷ levels) =
    let rest = oversized (suc i) (limit * 10 % 2 ^ 64) (next ∷ levels) in
    if ltb limit (level_size level) then some (i, level) else rest

abbrev pub is_some {ℓ} : {A : Type ℓ} → Option A → Bool
is_some none = false
is_some (some a) = true

-- `CompactionNeeded`
unfoldable pub compaction_needed : Tuning → Bool → Layout → Bool
unfolding oversized
compaction_needed tuning disabled v =
    if disabled
    then false
    else if leb tuning.l0_compaction_trigger (length v.l0)
    then true
    else is_some (oversized 0 tuning.level_base_size v.levels)

-- `inputs_a`, where they come from (`none` is L0) and the level that the outputs land in.
pub record Source : Type 0 where
  pub inputs : List TableRef
  pub source_level : Option ℕ
  pub output_level : ℕ

-- `front()` of a level, where it has one.
abbrev pub first : {A : Type 0} → List A → List A
first [] = []
first (a ∷ rest) = a ∷ []

unfoldable pub from_level : Option (ℕ × List TableRef) → Source
from_level none = record { inputs = []; source_level = some 0; output_level = 0 }
from_level (some (i, level)) = record {
  inputs = first level;
  source_level = some i;
  output_level = suc i;
}

unfoldable pub pick_source : Tuning → Layout → Source
unfolding from_level oversized
pick_source tuning v =
    if leb tuning.l0_compaction_trigger (length v.l0)
    then record { inputs = v.l0; source_level = none; output_level = 0 }
    else from_level (oversized 0 tuning.level_base_size v.levels)

-- `std::min` and `std::max`
unfoldable pub min_key : Bytes → Bytes → Bytes
min_key a b = if bytes_lt b a then b else a

unfoldable pub max_key : Bytes → Bytes → Bytes
max_key a b = if bytes_lt a b then b else a

-- `lo` and `hi` over the files of the source; `none` is `!has_range`.
unfoldable pub grow_range : Option (Bytes × Bytes) → TableRef → Option (Bytes × Bytes)
unfolding min_key max_key
grow_range none r = some (r.smallest_user_key, r.largest_user_key)
grow_range (some (lo, hi)) r = some (min_key lo r.smallest_user_key, max_key hi r.largest_user_key)

unfoldable pub key_range : Option (Bytes × Bytes) → List TableRef → Option (Bytes × Bytes)
unfolding grow_range
key_range range [] = range
key_range range (r ∷ rs) = key_range (grow_range range r) rs

-- The variables of the loop that expands the range.
pub record Picking : Type 0 where
  pub picked : List ℕ
  pub inputs_b : List TableRef
  pub lo : Bytes
  pub hi : Bytes
  pub changed : Bool

unfoldable pub is_picked : ℕ → List ℕ → Bool
is_picked n [] = false
is_picked n (p ∷ ps) = n == p || is_picked n ps

unfoldable pub overlaps : Bytes → Bytes → TableRef → Bool
overlaps lo hi r = not (bytes_lt r.largest_user_key lo) && not (bytes_lt hi r.smallest_user_key)

unfoldable pub pick_file : Picking → TableRef → Picking
unfolding is_picked overlaps min_key max_key
pick_file p r =
    if is_picked r.meta.file_number p.picked
    then p
    else if overlaps p.lo p.hi r
    then record {
      picked = r.meta.file_number ∷ p.picked;
      inputs_b = p.inputs_b ++ r ∷ [];
      lo = min_key p.lo r.smallest_user_key;
      hi = max_key p.hi r.largest_user_key;
      changed = true;
    }
    else p

-- One walk over the target level.
unfoldable pub pick_round : List TableRef → Picking → Picking
unfolding pick_file
pick_round [] p = p
pick_round (r ∷ rs) p = pick_round rs (pick_file p r)

-- `while (changed)`. A walk that changes something picks a file that was not picked; `none` is no
-- return of the program.
unfoldable pub pick_loop : ℕ → List TableRef → Picking → Option Picking
unfolding pick_round
pick_loop zero target p = none
pick_loop (suc fuel) target p =
    let q = pick_round target (record p { changed = false }) in
    let rest = pick_loop fuel target q in if q.changed then rest else some q

abbrev pub nothing_picked : Option (Bytes × Bytes) → Picking
nothing_picked none = record { picked = []; inputs_b = []; lo = []; hi = []; changed = true }
nothing_picked (some (lo, hi)) = record {
  picked = [];
  inputs_b = [];
  lo = lo;
  hi = hi;
  changed = true;
}

abbrev pub level_at : ℕ → List (List TableRef) → List TableRef
level_at i [] = []
level_at zero (level ∷ levels) = level
level_at (suc i) (level ∷ levels) = level_at i levels

-- `PickCompaction`: the source and, with `inputs_b`, the state at the end of the expansion.
unfoldable pub pick_compaction : Tuning → Layout → Source × Option Picking
unfolding pick_loop pick_source key_range
pick_compaction tuning v =
    let source = pick_source tuning v in
    let target = level_at source.output_level v.levels in
    (source, pick_loop (suc (length target)) target (nothing_picked (key_range none source.inputs)))

-- `VlogGcNeeded`, from how many snapshots and generations there are, and the sizes.
unfoldable pub vlog_gc_needed : Bool → Option ℕ → ℕ → ℕ → ℕ → ℕ → Bool
vlog_gc_needed vsep none snapshots generations gc_size gc_floor = false
vlog_gc_needed vsep (some file_size) snapshots generations gc_size gc_floor =
    if not vsep
    then false
    else if not (snapshots == 0)
    then false
    else if ltb 1 generations
    then true
    else leb (max gc_size gc_floor) file_size
