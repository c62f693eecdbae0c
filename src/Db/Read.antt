-- ===== src/Db/Read.antt =====
-- The read path of src/db.cpp: `DB::LookupIn`, `DB::Get` and the resolution of value pointers. The
-- memory tables and the tables are what the lookups use of them: their `Get`, and the bounds of a
-- table.
pub mod Runs
pub mod Newest
pub mod Resolution
use bedrockkv.Prelude.{
  ℕ, ◌-◌, ◌*◌, ◌^◌, Bool, true, false, not, ◌&&◌, ◌||◌, Option, none, some, List, [], ◌∷◌, ◌++◌,
  Bytes, length, byte_at, ◌==◌, if◌then◌else◌,
}
use bedrockkv.Prelude.Order.{bytes_lt, bytes_eq}
use bedrockkv.Prelude.Text.{codes}
use bedrockkv.Status.{Status, ok, is_ok, not_found, corruption, Result, done, failed}
use bedrockkv.Io.{Pread}
use bedrockkv.Vlog.{
  ValuePointer, pointer_size, pointer_tag, decode_value_pointer, file_name, Vlog, read_value,
}
use bedrockkv.Lru.Sharded.{Sharded, sharded_get, sharded_put}

-- `MemTable::Lookup`, with what is stored for a found key.
pub data Lookup : Type 0 where
  found : Bytes → Lookup
  deleted : Lookup
  missing : Lookup

-- `MemTable::kMaxSeq`
abbrev pub max_seq : ℕ
max_seq = 2 ^ 64 - 1

-- `sst::Table`; its `get` also gives the status that stands for a real error.
pub record Table : Type 0 where
  pub smallest_user_key : Bytes
  pub largest_user_key : Bytes
  pub get : Bytes → ℕ → Lookup × Status

pub record Version : Type 0 where
  pub l0 : List Table
  pub levels : List (List Table)

-- The answer of one table ends the lookup, or the next table is asked.
pub data Probe : Type 0 where
  answer : Lookup → Status → Probe
  go_on : Probe

unfoldable pub decide : Lookup × Status → Probe
decide (found stored, s) = answer (found stored) ok
decide (deleted, s) = answer deleted ok
decide (missing, s) = if is_ok s then go_on else answer missing s

unfoldable pub or_else : Probe → Lookup × Status → Lookup × Status
or_else (answer l s) next = (l, s)
or_else go_on next = next

-- A memory table cannot fail.
unfoldable pub decide_memory : Lookup → Probe
decide_memory (found stored) = answer (found stored) ok
decide_memory deleted = answer deleted ok
decide_memory missing = go_on

abbrev pub MemoryGet : Type 0
MemoryGet = Bytes → ℕ → Lookup

-- `std::upper_bound` by the smallest key of a file, then `--it`: the last file whose smallest key
-- is not above the key.
unfoldable pub last_not_above : Bytes → Option Table → List Table → Option Table
last_not_above key best [] = best
last_not_above key best (r ∷ rs) =
    let rest = last_not_above key (some r) rs in
    if bytes_lt key r.smallest_user_key then best else rest

unfoldable pub probe_file : Bytes → ℕ → Option Table → Probe
unfolding decide
probe_file key seq none = go_on
probe_file key seq (some r) =
    if bytes_lt r.largest_user_key key then go_on else decide (r.get key seq)

unfoldable pub lookup_levels : Bytes → ℕ → List (List Table) → Lookup × Status
unfolding or_else probe_file last_not_above
lookup_levels key seq [] = (missing, ok)
lookup_levels key seq (level ∷ levels) =
    or_else (probe_file key seq (last_not_above key none level)) (lookup_levels key seq levels)

-- The walk over L0, newest file first, and what follows it.
unfoldable pub lookup_l0 : Bytes → ℕ → List Table → Lookup × Status → Lookup × Status
unfolding or_else decide
lookup_l0 key seq [] below = below
lookup_l0 key seq (r ∷ rs) below = or_else (decide (r.get key seq)) (lookup_l0 key seq rs below)

unfoldable pub probe_imm : Bytes → ℕ → Option MemoryGet → Probe
unfolding decide_memory
probe_imm key seq none = go_on
probe_imm key seq (some imm) = decide_memory (imm key seq)

-- `LookupIn`, with `*error`.
unfoldable pub lookup_in : MemoryGet → Option MemoryGet → Version → Bytes → ℕ → Lookup × Status
unfolding or_else decide_memory probe_imm lookup_l0 lookup_levels
lookup_in mem imm v key seq =
    or_else (decide_memory (mem key seq))
      (or_else (probe_imm key seq imm) (lookup_l0 key seq v.l0 (lookup_levels key seq v.levels)))

-- `Get` behind the lookup; `resolve` is `MaybeResolvePointer` on the value.
unfoldable pub get_answer {ℓ} :
    {A : Type ℓ} → (Bytes → Result Bytes × A) → A → Bytes → Lookup × Status → Result Bytes × A
get_answer resolve cache key (found stored, e) = resolve stored
get_answer resolve cache key (deleted, e) = (failed (not_found (codes "deleted: " ++ key)), cache)
get_answer resolve cache key (missing, e) =
    if is_ok e then (failed (not_found (codes "missing: " ++ key)), cache) else (failed e, cache)

-- The read point of a `Get` or `Scan`.
unfoldable pub read_point : Option ℕ → ℕ
read_point none = max_seq
read_point (some seq) = seq

-- `VLogFor`
unfoldable pub vlog_for : ℕ → List Vlog → Option Vlog
vlog_for number [] = none
vlog_for number (v ∷ vs) =
    let rest = vlog_for number vs in if v.number == number then some v else rest

-- `vlog_cache_`: 16 shards, the weight of a value its size.
abbrev pub Cache : Type 0
Cache = Sharded Bytes Bytes

abbrev pub cache_weight : ℕ
cache_weight = 32 * 1024 * 1024

-- The hash of `std::string` is a parameter, like `::pread`.
module _ (hash : Bytes → ℕ) (pread : Pread) where
  unfoldable pub cache_get : Cache → Bytes → Option Bytes × Cache
  cache_get cache key = sharded_get bytes_eq length hash 16 cache key

  unfoldable pub cache_put : Cache → Bytes → Bytes → Cache
  cache_put cache key v = sharded_put bytes_eq length hash 16 cache_weight cache key v

  unfoldable pub on_value_read : Cache → Bytes → Result Bytes → Result Bytes × Cache
  on_value_read cache stored (failed s) = (failed s, cache)
  on_value_read cache stored (done resolved) = (done resolved, cache_put cache stored resolved)

  unfoldable pub on_generation : Cache → Bytes → ValuePointer → Option Vlog → Result Bytes × Cache
  unfolding on_value_read
  on_generation cache stored p none = (
    failed (
        corruption (
          codes "value log "
          ++ (file_name p.vlog_number ++ codes " is gone (separation disabled after use?)"))),
    cache,
  )
  on_generation cache stored p (some v) =
      on_value_read cache stored (read_value pread v p.offset p.value_size)

  unfoldable pub on_cached :
      List Vlog → Bytes → ValuePointer → Option Bytes × Cache → Result Bytes × Cache
  unfolding on_generation vlog_for
  on_cached vlogs stored p (some cached, cache) = (done cached, cache)
  on_cached vlogs stored p (none, cache) =
      on_generation cache stored p (vlog_for p.vlog_number vlogs)

  unfoldable pub on_pointer : List Vlog → Cache → Bytes → Option ValuePointer → Result Bytes × Cache
  unfolding on_cached cache_get
  on_pointer vlogs cache stored none =
      (failed (corruption (codes "undecodable value pointer")), cache)
  on_pointer vlogs cache stored (some p) = on_cached vlogs stored p (cache_get cache stored)

  -- `MaybeResolvePointer`
  unfoldable pub resolve : Bool → List Vlog → Cache → Bytes → Result Bytes × Cache
  unfolding on_pointer
  resolve vsep vlogs cache stored =
      if not vsep
      then (done stored, cache)
      else if not (length stored == pointer_size) || not (byte_at stored 0 == pointer_tag)
      then (done stored, cache)
      else on_pointer vlogs cache stored (decode_value_pointer stored)

  -- `DB::Get`. The members are copied under the mutex: a read sees them as they are at one instant.
  unfoldable pub get :
      Bool
      → MemoryGet
      → Option MemoryGet
      → Version
      → List Vlog
      → Cache
      → Bytes
      → Option ℕ
      → Result Bytes × Cache
  unfolding lookup_in get_answer resolve
  get vsep mem imm v vlogs cache key snapshot =
      get_answer (resolve vsep vlogs cache) cache key
        (lookup_in mem imm v key (read_point snapshot))
