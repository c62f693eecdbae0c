-- ===== src/Db/Pick/Range.antt =====
-- The expansion of the key range, `DB::PickCompaction` of src/db.cpp: what stays in the target level
-- does not meet the range of the inputs.
use bedrockkv.Prelude.{
  ℕ, zero, suc, ◌<◌, ◌≡◌, refl, sym, ◌∙◌, subst, true, false, ◌⊎◌, inl, inr, Bool-cases, Option,
  none, some, List, [], ◌∷◌, map, arith, Bytes, All, length,
}
use bedrockkv.Prelude.Order.{bytes_lt_irrefl}
use bedrockkv.Db.Pick.{
  TableRef, Layout, Tuning, min_key, max_key, grow_range, key_range, Picking, is_picked, overlaps,
  pick_round, pick_loop, nothing_picked, level_at, pick_source, pick_compaction,
}
use bedrockkv.Db.Pick.Walk.{
  number, IsTied, round-IsTied, IsInside, IsSettled, unpicked, min_below, max_above, IsInside-grown,
  round_falls, round-IsSettled, IsCovered, KeepsInside, round_keeps,
}

pick_loop-end :
    (fuel : ℕ) (target : List TableRef) (p : Picking)
    → unpicked target p.picked < fuel
    → IsCovered p
    → IsTied p
    → (q : Picking) × (pick_loop fuel target p ≡ some q)
      × All (IsSettled q) target
      × IsCovered q
      × KeepsInside p q
      × IsTied q
unfolding pick_loop
pick_loop-end zero target p enough h tied = absurd (omega arith)
pick_loop-end (suc fuel) target p enough h tied =
    let start : Picking = record p { changed = false } in
    let q = pick_round target start in
    let (covered, keeps) = round_keeps target start h in
    let tied_after = round-IsTied target start tied in
    elim (Bool-cases q.changed) [
      | inl goes_on ↦
          let falls = round_falls target start refl goes_on in
          let (end, ends, settles, covers, inside, tied_end) =
            pick_loop-end fuel target q (omega (arith, falls, enough)) covered tied_after in
          (end, rw goes_on ends, settles, covers, (λ t k. inside t (keeps t k)), tied_end)
      | inr stands ↦
          let (same, settles) = round-IsSettled target start refl stands in
          (
            q,
            rw stands refl,
            subst (λ (r : Picking). All (IsSettled r) target) (sym same) settles,
            covered,
            keeps,
            tied_after,
          )
    ]

unpicked_none : (target : List TableRef) → unpicked target [] ≡ length target
unfolding unpicked is_picked
unpicked_none [] = refl
unpicked_none (r ∷ rs) = omega (arith, unpicked_none rs)

abbrev IsRanged : Option (Bytes × Bytes) → TableRef → Type 0
IsRanged none r = ⊥
IsRanged (some (lo, hi)) r = IsInside lo hi r

key_range_keeps :
    (range : Option (Bytes × Bytes)) (rs : List TableRef) (t : TableRef)
    → IsRanged range t
    → IsRanged (key_range range rs) t
unfolding key_range grow_range
key_range_keeps range [] t h = h
key_range_keeps none (r ∷ rs) t h = absurd h
key_range_keeps (some (lo, hi)) (r ∷ rs) t h =
    key_range_keeps (some (min_key lo r.smallest_user_key, max_key hi r.largest_user_key)) rs t
      (IsInside-grown lo hi r.smallest_user_key r.largest_user_key t h)

key_range_covers :
    (range : Option (Bytes × Bytes)) (rs : List TableRef) → All (IsRanged (key_range range rs)) rs
unfolding key_range grow_range
key_range_covers range [] = tt
key_range_covers none (r ∷ rs) = (
  key_range_keeps (some (r.smallest_user_key, r.largest_user_key)) rs r
      (bytes_lt_irrefl r.smallest_user_key, bytes_lt_irrefl r.largest_user_key),
  key_range_covers (some (r.smallest_user_key, r.largest_user_key)) rs,
)
key_range_covers (some (lo, hi)) (r ∷ rs) = (
  key_range_keeps (some (min_key lo r.smallest_user_key, max_key hi r.largest_user_key)) rs r
      (min_below lo r.smallest_user_key, max_above hi r.largest_user_key),
  key_range_covers (some (min_key lo r.smallest_user_key, max_key hi r.largest_user_key)) rs,
)

inputs-IsInside :
    (range : Option (Bytes × Bytes)) (q : Picking) (rs : List TableRef)
    → KeepsInside (nothing_picked range) q
    → All (IsRanged range) rs
    → All (IsInside q.lo q.hi) rs
inputs-IsInside range q [] keeps h = tt
inputs-IsInside range q (r ∷ rs) keeps h =
    (one range keeps h.0, inputs-IsInside range q rs keeps h.1)
  where
    one :
        (range : Option (Bytes × Bytes))
        → KeepsInside (nothing_picked range) q
        → IsRanged range r
        → IsInside q.lo q.hi r
    one none keeps h = absurd h
    one (some (lo, hi)) keeps h = keeps r h

-- A file of the target level is among the chosen ones, or apart from the range.
abbrev pub IsChosenOrApart : Picking → TableRef → Type 0
IsChosenOrApart q r =
    (is_picked (number r) (map number q.inputs_b) ≡ true) ⊎ (overlaps q.lo q.hi r ≡ false)

settled-IsChosenOrApart :
    (q : Picking) (target : List TableRef)
    → IsTied q
    → All (IsSettled q) target
    → All (IsChosenOrApart q) target
settled-IsChosenOrApart q [] tied h = tt
settled-IsChosenOrApart q (r ∷ rs) tied h = (one h.0, settled-IsChosenOrApart q rs tied h.1)
  where
    one : IsSettled q r → IsChosenOrApart q r
    one (inl picked) = inl (sym (tied (number r)) ∙ picked)
    one (inr apart) = inr apart

-- The expansion of PickCompaction ends; the files of the source and the chosen files of the
-- target level, inputs_b, lie inside the final range, and every file of the target level whose
-- number is not that of a chosen file lies apart from it.
pub pick_compaction-disjoint :
    (tuning : Tuning) (v : Layout)
    → (q : Picking) × ((pick_compaction tuning v).1 ≡ some q)
      × All (IsInside q.lo q.hi) (pick_source tuning v).inputs
      × All (IsInside q.lo q.hi) q.inputs_b
      × All (IsChosenOrApart q) (level_at (pick_source tuning v).output_level v.levels)
unfolding pick_compaction
pick_compaction-disjoint tuning v =
    let source = pick_source tuning v in
    let target = level_at source.output_level v.levels in
    let range = key_range none source.inputs in
    let (q, ends, settles, covers, keeps, tied) =
      pick_loop-end (suc (length target)) target (nothing_picked range)
        (omega (arith, fresh_count range target)) (fresh_covered range) (fresh_tied range) in
    (
      q,
      ends,
      inputs-IsInside range q source.inputs keeps (key_range_covers none source.inputs),
      covers,
      settled-IsChosenOrApart q target tied settles,
    )
  where
    fresh_count :
        (range : Option (Bytes × Bytes)) (target : List TableRef)
        → unpicked target (nothing_picked range).picked ≡ length target
    fresh_count none target = unpicked_none target
    fresh_count (some (lo, hi)) target = unpicked_none target

    fresh_covered : (range : Option (Bytes × Bytes)) → IsCovered (nothing_picked range)
    fresh_covered none = tt
    fresh_covered (some (lo, hi)) = tt

    fresh_tied : (range : Option (Bytes × Bytes)) → IsTied (nothing_picked range)
    fresh_tied none n = refl
    fresh_tied (some (lo, hi)) n = refl
