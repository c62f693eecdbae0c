-- ===== src/Lru/Weight.antt =====
-- The weight of a shard, and what a `Put` leaves in it.
use bedrockkv.Prelude.{
  ℕ, zero, suc, ◌+◌, ◌-◌, ◌≤◌, ◌<◌, ◌≡◌, refl, ap, sym, ◌∙◌, subst, Bool, true, false, ◌&&◌, inl,
  inr, Bool-cases, some, Option-cases, List, [], ◌∷◌, arith, length, ltb,
}
use bedrockkv.Lru.{
  Shard, find, without, get_found, get, last_weight, without_last, evict, insert, put,
}

module _ {K V : Type 0} (eq : K → K → Bool) (weigh : V → ℕ) where
  abbrev pub total : List (K × V) → ℕ
  total [] = 0
  total (e ∷ es) = weigh e.1 + total es

  -- The weight that the shard counts is that of its entries.
  abbrev pub Counts : Shard K V → Type 0
  Counts s = s.weight ≡ total s.lru

  total-without_last :
      (es : List (K × V)) → total (without_last eq weigh es) + last_weight eq weigh es ≡ total es
  total-without_last [] = omega arith
  total-without_last (e ∷ []) = omega arith
  total-without_last (e ∷ d ∷ es) = omega (arith, total-without_last (d ∷ es))

  length-without_last : (es : List (K × V)) → length (without_last eq weigh es) ≡ length es - 1
  length-without_last [] = omega arith
  length-without_last (e ∷ []) = omega arith
  length-without_last (e ∷ d ∷ es) = omega (arith, length-without_last (d ∷ es))

  total-nil : (es : List (K × V)) → length es ≤ 0 → total es ≡ 0
  total-nil [] h = refl
  total-nil (e ∷ es) h = absurd (omega arith)

  some-inj : {a b : V} → some a ≡ some b → a ≡ b
  some-inj h = ground (arith, h)

  total-without :
      (key : K) (v : V) (es : List (K × V))
      → find eq weigh key es ≡ some v
      → total (without eq weigh key es) + weigh v ≡ total es
  unfolding find without
  total-without key v [] h = absurd (ground (arith, h))
  total-without key v (e ∷ es) h = elim (Bool-cases (eq e.0 key)) [
    | inl same ↦
        let found : some e.1 ≡ some v = sym (rw same refl) ∙ h in
        let w : weigh e.1 ≡ weigh v = ap weigh (some-inj found) in rw same (omega (arith, w))
    | inr other ↦
        let later : find eq weigh key es ≡ some v = sym (rw other refl) ∙ h in
        rw other (omega (arith, total-without key v es later))
  ]

  evict-Counts :
      (fuel cap : ℕ) (s : Shard K V)
      → Counts s
      → length s.lru ≤ fuel
      → Counts (evict eq weigh fuel cap s) × ((evict eq weigh fuel cap s).weight ≤ cap)
  unfolding evict
  evict-Counts zero cap s h n = (h, omega (arith, h, total-nil s.lru n))
  evict-Counts (suc fuel) cap s h n = elim (Bool-cases (ltb cap s.weight && ltb 0 (length s.lru))) [
    | inl heavy ↦ rw heavy (
        evict-Counts fuel cap
          (record {
            lru = without_last eq weigh s.lru;
            weight = s.weight - last_weight eq weigh s.lru;
          })
          (omega (arith, h, total-without_last s.lru))
          (omega (arith, length-without_last s.lru, n)))
    | inr fits ↦ rw fits (h, ground (arith, h, total-nil s.lru))
  ]

  insert-Counts :
      (s : Shard K V) (key : K) (v : V)
      → Counts s
      → Counts (insert eq weigh s key v (find eq weigh key s.lru))
  unfolding insert
  insert-Counts s key v h = elim (Option-cases (find eq weigh key s.lru)) [
    | inl missing ↦ rw missing (omega (arith, h))
    | inr (old, found) ↦ rw found (omega (arith, h, total-without key old s.lru found))
  ]

  -- After a Put into a shard that counts the weight of its entries and is within its cap, the
  -- shard does so again.
  pub put-Counts :
      (max_total cap : ℕ) (s : Shard K V) (key : K) (v : V)
      → Counts s
      → s.weight ≤ cap
      → Counts (put eq weigh max_total cap s key v)
        × ((put eq weigh max_total cap s key v).weight ≤ cap)
  unfolding put
  put-Counts max_total cap s key v h light = elim (Bool-cases (ltb max_total (weigh v))) [
    | inl too_big ↦ rw too_big (h, light)
    | inr fits ↦
        let t : Shard K V = insert eq weigh s key v (find eq weigh key s.lru) in
        rw fits (evict-Counts (length t.lru) cap t (insert-Counts s key v h) (omega arith))
  ]

  -- The entry in front stays while its own weight is within the cap.
  evict-front :
      (fuel cap : ℕ) (key : K) (v : V) (es : List (K × V)) (w : ℕ)
      → w ≡ weigh v + total es
      → weigh v ≤ cap
      → (es' : List (K × V)) × ((evict eq weigh fuel cap
            (record { lru = (key, v) ∷ es; weight = w })).lru
          ≡ (key, v) ∷ es')
  unfolding evict
  evict-front zero cap key v es w h light = (es, refl)
  evict-front (suc fuel) cap key v [] w h light =
      let stay : (ltb cap w && ltb 0 1) ≡ false = ground (arith, h, light) in ([], rw stay refl)
  evict-front (suc fuel) cap key v (e ∷ es) w h light =
      elim (Bool-cases (ltb cap w && ltb 0 (length ((key, v) ∷ e ∷ es)))) [
        | inl heavy ↦
            let (es', kept) =
              evict-front fuel cap key v (without_last eq weigh (e ∷ es))
                (w - last_weight eq weigh (e ∷ es)) (omega (arith, h, total-without_last (e ∷ es)))
                light in
            (es', rw heavy kept)
        | inr fits ↦ (e ∷ es, rw fits refl)
      ]

  evict-nil :
      (fuel cap w : ℕ) → (evict eq weigh fuel cap (record { lru = []; weight = w })).lru ≡ []
  unfolding evict
  evict-nil zero cap w = refl
  evict-nil (suc fuel) cap w =
      let stay : (ltb cap w && ltb 0 0) ≡ false = ground arith in rw stay refl

  insert-front :
      (s : Shard K V) (key : K) (v : V)
      → (es : List (K × V)) × (w : ℕ) × (insert eq weigh s key v (find eq weigh key s.lru)
          ≡ record { lru = (key, v) ∷ es; weight = w })
  unfolding insert
  insert-front s key v = elim (Option-cases (find eq weigh key s.lru)) [
    | inl missing ↦ (s.lru, s.weight + weigh v, rw missing refl)
    | inr (old, found) ↦ (without eq weigh key s.lru, s.weight - weigh old + weigh v, rw found refl)
  ]

  find-front :
      (key : K) (v : V) (es : List (K × V))
      → eq key key ≡ true
      → find eq weigh key ((key, v) ∷ es) ≡ some v
  unfolding find
  find-front key v es same = rw same refl

  get-front :
      (s : Shard K V) (key : K) (v : V) (es : List (K × V))
      → eq key key ≡ true
      → s.lru ≡ (key, v) ∷ es
      → (get eq weigh s key).0 ≡ some v
  unfolding get get_found
  get-front s key v es same front = rw (front, find-front key v es same) refl

  -- A value no heavier than the cap of its shard is found by a Get after its Put, if the shard
  -- counts the weight of its entries and its cap is within the whole weight.
  pub get-put :
      (max_total cap : ℕ) (s : Shard K V) (key : K) (v : V)
      → eq key key ≡ true
      → Counts s
      → weigh v ≤ cap
      → cap ≤ max_total
      → (get eq weigh (put eq weigh max_total cap s key v) key).0 ≡ some v
  unfolding put
  get-put max_total cap s key v same h light small =
      let (es, w, front) = insert-front s key v in
      let counts : w ≡ weigh v + total es = subst Counts front (insert-Counts s key v h) in
      let fits : ltb max_total (weigh v) ≡ false = ground (arith, light, small) in
      let (es', kept) = evict-front (suc (length es)) cap key v es w counts light in
      rw (fits, front)
        (get-front
          (evict eq weigh (suc (length es)) cap (record { lru = (key, v) ∷ es; weight = w })) key v
          es' same kept)

  evict-heavy :
      (fuel cap : ℕ) (key : K) (v : V) (es : List (K × V)) (w : ℕ)
      → w ≡ weigh v + total es
      → cap < weigh v
      → length es < fuel
      → (evict eq weigh fuel cap (record { lru = (key, v) ∷ es; weight = w })).lru ≡ []
  unfolding evict
  evict-heavy zero cap key v es w h heavy n = absurd (omega arith)
  evict-heavy (suc fuel) cap key v [] w h heavy n =
      let go : (ltb cap w && ltb 0 1) ≡ true = ground (arith, h, heavy) in
      rw go (evict-nil fuel cap (w - weigh v))
  evict-heavy (suc fuel) cap key v (e ∷ es) w h heavy n =
      let go : (ltb cap w && ltb 0 (length ((key, v) ∷ e ∷ es))) ≡ true =
        ground (arith, h, heavy) in
      rw go (
        evict-heavy fuel cap key v (without_last eq weigh (e ∷ es))
          (w - last_weight eq weigh (e ∷ es)) (omega (arith, h, total-without_last (e ∷ es))) heavy
          (omega (arith, n, length-without_last (e ∷ es))))

  -- A Put of a value heavier than the cap of its shard, but within the whole weight, leaves the
  -- shard without any entry.
  pub put-flushes :
      (max_total cap : ℕ) (s : Shard K V) (key : K) (v : V)
      → Counts s
      → cap < weigh v
      → weigh v ≤ max_total
      → (put eq weigh max_total cap s key v).lru ≡ []
  unfolding put
  put-flushes max_total cap s key v h heavy fits_total =
      let (es, w, front) = insert-front s key v in
      let counts : w ≡ weigh v + total es = subst Counts front (insert-Counts s key v h) in
      let fits : ltb max_total (weigh v) ≡ false = ground (arith, fits_total) in
      rw (fits, front) (evict-heavy (suc (length es)) cap key v es w counts heavy (omega arith))
