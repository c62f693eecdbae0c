-- ===== src/Lru/Sharded.antt =====
-- The cache over its shards, include/bedrockkv/lru_cache.h: `ShardOf` chooses one by the hash.
pub mod Entries
use bedrockkv.Prelude.{ℕ, ◌%◌, Bool, Option, List, [], ◌∷◌, ◌==◌, if◌then◌else◌}
use bedrockkv.Lru.{Shard, empty_shard, shard_cap, get, put}

abbrev pub Sharded : Type 0 → Type 0 → Type 0
Sharded K V = ℕ → Shard K V

unfoldable pub set_shard {ℓ} : {A : Type ℓ} → (ℕ → A) → ℕ → A → ℕ → A
set_shard c i s j = if j == i then s else c j

abbrev pub no_entries : {K V : Type 0} → Sharded K V
no_entries = λ i. empty_shard

module _ {K V : Type 0} (eq : K → K → Bool) (weigh : V → ℕ) (hash : K → ℕ) (shards : ℕ) where
  -- `ShardOf`
  unfoldable pub shard_of : K → ℕ
  shard_of key = hash key % shards

  -- `Get`
  unfoldable pub sharded_get : Sharded K V → K → Option V × Sharded K V
  unfolding shard_of set_shard
  sharded_get c key =
      let (r, s) = get eq weigh (c (shard_of key)) key in (r, set_shard c (shard_of key) s)

  -- `Put`
  unfoldable pub sharded_put : ℕ → Sharded K V → K → V → Sharded K V
  unfolding shard_of set_shard
  sharded_put max_total c key v =
      set_shard c (shard_of key)
        (put eq weigh max_total (shard_cap max_total shards) (c (shard_of key)) key v)

  -- `Clear`
  unfoldable pub sharded_clear : Sharded K V → Sharded K V
  sharded_clear c = no_entries
