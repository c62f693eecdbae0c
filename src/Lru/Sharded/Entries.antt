-- ===== src/Lru/Sharded/Entries.antt =====
-- What holds of every entry of the cache goes on to hold.
use bedrockkv.Prelude.{
  ℕ, zero, suc, ◌-◌, ◌≡◌, refl, sym, ◌∙◌, subst, Bool, true, ◌&&◌, inl, inr, Bool-cases, Option,
  none, some, List, [], ◌∷◌, arith, All, length, ltb, ◌==◌,
}
use bedrockkv.Lru.{
  Shard, shard_cap, find, without, get_found, get, last_weight, without_last, evict, insert, put,
}
use bedrockkv.Lru.Sharded.{Sharded, set_shard, shard_of, sharded_get, sharded_put}

module _ {K V : Type 0} (eq : K → K → Bool) (weigh : V → ℕ)
    (same_key : (a b : K) → eq a b ≡ true → a ≡ b) (P : K × V → Type 0) where
  find-All :
      (key : K) (v : V) (es : List (K × V)) → All P es → find eq weigh key es ≡ some v → P (key, v)
  unfolding find
  find-All key v [] h found = absurd (ground (arith, found))
  find-All key v (e ∷ es) h found = elim (Bool-cases (eq e.0 key)) [
    | inl same ↦
        let q : some e.1 ≡ some v = sym (rw same refl) ∙ found in
        let p : e ≡ (key, v) = ground (arith, same_key e.0 key same, q) in subst P p h.0
    | inr other ↦
        let later : find eq weigh key es ≡ some v = sym (rw other refl) ∙ found in
        find-All key v es h.1 later
  ]

  without-All : (key : K) (es : List (K × V)) → All P es → All P (without eq weigh key es)
  unfolding without
  without-All key [] h = tt
  without-All key (e ∷ es) h = elim (Bool-cases (eq e.0 key)) [
    | inl same ↦ rw same h.1
    | inr other ↦ rw other (h.0, without-All key es h.1)
  ]

  without_last-All : (es : List (K × V)) → All P es → All P (without_last eq weigh es)
  without_last-All [] h = tt
  without_last-All (e ∷ []) h = tt
  without_last-All (e ∷ d ∷ es) h = (h.0, without_last-All (d ∷ es) h.1)

  evict-All : (fuel cap : ℕ) (s : Shard K V) → All P s.lru → All P (evict eq weigh fuel cap s).lru
  unfolding evict
  evict-All zero cap s h = h
  evict-All (suc fuel) cap s h =
      let rest =
        evict-All fuel cap
          (record {
            lru = without_last eq weigh s.lru;
            weight = s.weight - last_weight eq weigh s.lru;
          })
          (without_last-All s.lru h) in
      elim (Bool-cases (ltb cap s.weight && ltb 0 (length s.lru))) [
        | inl heavy ↦ rw heavy rest
        | inr light ↦ rw light h
      ]

  insert-All :
      (s : Shard K V) (key : K) (v : V) (o : Option V)
      → P (key, v)
      → All P s.lru
      → All P (insert eq weigh s key v o).lru
  unfolding insert
  insert-All s key v none p h = (p, h)
  insert-All s key v (some old) p h = (p, without-All key s.lru h)

  put-All :
      (max_total cap : ℕ) (s : Shard K V) (key : K) (v : V)
      → P (key, v)
      → All P s.lru
      → All P (put eq weigh max_total cap s key v).lru
  unfolding put
  put-All max_total cap s key v p h =
      let t = insert eq weigh s key v (find eq weigh key s.lru) in
      let kept = evict-All (length t.lru) cap t (insert-All s key v _ p h) in
      elim (Bool-cases (ltb max_total (weigh v))) [
        | inl heavy ↦ rw heavy h
        | inr light ↦ rw light kept
      ]

  get_found-All :
      (s : Shard K V) (key : K) (o : Option V)
      → find eq weigh key s.lru ≡ o
      → All P s.lru
      → ((v : V) → (get_found eq weigh s key o).0 ≡ some v → P (key, v))
        × All P (get_found eq weigh s key o).1.lru
  unfolding get_found
  get_found-All s key none f h = (λ v g. absurd (ground (arith, g)), h)
  get_found-All s key (some w) f h =
      let p = find-All key w s.lru h f in
      (λ v g. find-All key v s.lru h (f ∙ g), (p, without-All key s.lru h))

  module _ (hash : K → ℕ) (shards : ℕ) where
    -- `P` holds of every entry.
    abbrev pub Everywhere : Sharded K V → Type 0
    Everywhere c = (i : ℕ) → All P (c i).lru

    set_shard-Everywhere :
        (c : Sharded K V) (i : ℕ) (s : Shard K V)
        → Everywhere c
        → All P s.lru
        → Everywhere (set_shard c i s)
    unfolding set_shard
    set_shard-Everywhere c i s h k j = elim (Bool-cases (j == i)) [
      | inl here ↦ rw here k
      | inr other ↦ rw other (h j)
    ]

    -- What a `Get` finds is the value of an entry, and the entries stay.
    pub sharded_get-Everywhere :
        (c : Sharded K V) (key : K)
        → Everywhere c
        → ((v : V) → (sharded_get eq weigh hash shards c key).0 ≡ some v → P (key, v))
          × Everywhere (sharded_get eq weigh hash shards c key).1
    unfolding sharded_get get
    sharded_get-Everywhere c key h =
        let i = shard_of eq weigh hash shards key in
        let r = get_found-All (c i) key (find eq weigh key (c i).lru) refl (h i) in
        (r.0, set_shard-Everywhere c i _ h r.1)

    -- A `Put` keeps it.
    pub sharded_put-Everywhere :
        (max_total : ℕ) (c : Sharded K V) (key : K) (v : V)
        → P (key, v)
        → Everywhere c
        → Everywhere (sharded_put eq weigh hash shards max_total c key v)
    unfolding sharded_put
    sharded_put-Everywhere max_total c key v p h =
        let i = shard_of eq weigh hash shards key in
        set_shard-Everywhere c i _ h
          (put-All max_total (shard_cap max_total shards) (c i) key v p (h i))
