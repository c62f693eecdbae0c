-- ===== src/Lru.antt =====
-- One shard of the cache, include/bedrockkv/lru_cache.h. The map points into the list: it is not
-- kept apart, a key is looked up in the list. Keys, their equality and the weight are parameters.
pub mod Weight
pub mod Sharded
use bedrockkv.Prelude.{
  ℕ, zero, suc, ◌+◌, ◌-◌, ◌/◌, Bool, true, false, ◌&&◌, Option, none, some, List, [], ◌∷◌, length,
  ltb, ◌==◌, if◌then◌else◌,
}

-- `lru` has the most recent entry in front.
pub record Shard (K V : Type 0) : Type 0 where
  pub lru : List (K × V)
  pub weight : ℕ

-- `shard_weight_cap_`
unfoldable pub shard_cap : ℕ → ℕ → ℕ
shard_cap max_total shards = if max_total / shards == 0 then 1 else max_total / shards

abbrev pub empty_shard : {K V : Type 0} → Shard K V
empty_shard = record { lru = []; weight = 0 }

module _ {K V : Type 0} (eq : K → K → Bool) (weigh : V → ℕ) where
  unfoldable pub find : K → List (K × V) → Option V
  find key [] = none
  find key (e ∷ es) = let rest = find key es in if eq e.0 key then some e.1 else rest

  -- The list without the entry of a key.
  unfoldable pub without : K → List (K × V) → List (K × V)
  without key [] = []
  without key (e ∷ es) = let rest = without key es in if eq e.0 key then es else e ∷ rest

  unfoldable pub get_found : Shard K V → K → Option V → Option V × Shard K V
  get_found s key none = (none, s)
  get_found s key (some v) = (some v, record s { lru = (key, v) ∷ without key s.lru })

  -- `Get`
  unfoldable pub get : Shard K V → K → Option V × Shard K V
  unfolding get_found find
  get s key = get_found s key (find key s.lru)

  abbrev pub last_weight : List (K × V) → ℕ
  last_weight [] = 0
  last_weight (e ∷ []) = weigh e.1
  last_weight (e ∷ d ∷ es) = last_weight (d ∷ es)

  abbrev pub without_last : List (K × V) → List (K × V)
  without_last [] = []
  without_last (e ∷ []) = []
  without_last (e ∷ d ∷ es) = e ∷ without_last (d ∷ es)

  -- The eviction loop. Each round takes an entry.
  unfoldable pub evict : ℕ → ℕ → Shard K V → Shard K V
  evict zero cap s = s
  evict (suc fuel) cap s =
      let rest =
        evict fuel cap
          (record { lru = without_last s.lru; weight = s.weight - last_weight s.lru }) in
      if ltb cap s.weight && ltb 0 (length s.lru) then rest else s

  -- The entry is in front, and its weight counted.
  unfoldable pub insert : Shard K V → K → V → Option V → Shard K V
  unfolding without
  insert s key v (some old) = record {
    lru = (key, v) ∷ without key s.lru;
    weight = s.weight - weigh old + weigh v;
  }
  insert s key v none = record { lru = (key, v) ∷ s.lru; weight = s.weight + weigh v }

  -- `Put`
  unfoldable pub put : ℕ → ℕ → Shard K V → K → V → Shard K V
  unfolding insert evict
  put max_total cap s key v =
      let t = insert s key v (find key s.lru) in
      if ltb max_total (weigh v) then s else evict (length t.lru) cap t
