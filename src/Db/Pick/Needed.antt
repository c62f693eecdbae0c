-- ===== src/Db/Pick/Needed.antt =====
-- `CompactionNeeded` and `PickCompaction`, src/db.cpp, agree on what there is to do.
use bedrockkv.Prelude.{
  ℕ, suc, ◌+◌, ◌*◌, ◌%◌, ◌^◌, ◌≤◌, ◌<◌, ◌≡◌, refl, sym, ◌∙◌, Bool, true, false, inl, inr,
  Bool-cases, Option, none, some, List, [], ◌∷◌, arith, length, ltb, leb,
}
use bedrockkv.Db.Pick.{
  TableRef, Layout, Tuning, level_size, oversized, is_some, compaction_needed, from_level,
  pick_source,
}

-- A level found over its limit has a file, and a level behind it.
abbrev IsVictim : ℕ → List (List TableRef) → Option (ℕ × List TableRef) → Type 0
IsVictim i levels none = Unit
IsVictim i levels (some (j, level)) = (1 ≤ length level) × (suc j < i + length levels)

oversized-IsVictim :
    (i limit : ℕ) (levels : List (List TableRef)) → IsVictim i levels (oversized i limit levels)
unfolding oversized
oversized-IsVictim i limit [] = tt
oversized-IsVictim i limit (level ∷ []) = tt
oversized-IsVictim i limit (level ∷ next ∷ levels) =
    let rest = oversized-IsVictim (suc i) (limit * 10 % 2 ^ 64) (next ∷ levels) in
    elim (Bool-cases (ltb limit (level_size level))) [
      | inl over ↦ rw over (has_file level over, omega arith)
      | inr within ↦
          rw within (later (oversized (suc i) (limit * 10 % 2 ^ 64) (next ∷ levels)) rest)
    ]
  where
    has_file : (level : List TableRef) → ltb limit (level_size level) ≡ true → 1 ≤ length level
    has_file [] h = absurd (unfold level_size in ground (arith, h))
    has_file (r ∷ rs) h = omega arith

    later :
        (o : Option (ℕ × List TableRef))
        → IsVictim (suc i) (next ∷ levels) o
        → IsVictim i (level ∷ next ∷ levels) o
    later none h = tt
    later (some (j, l)) h = (h.0, omega (arith, h.1))

-- When a compaction is needed, PickCompaction has an input file and an output level that exists,
-- for a trigger of at least one file and at least one level.
pub compaction_needed-pick_source :
    (tuning : Tuning) (disabled : Bool) (v : Layout)
    → compaction_needed tuning disabled v ≡ true
    → 1 ≤ tuning.l0_compaction_trigger
    → 1 ≤ length v.levels
    → (1 ≤ length (pick_source tuning v).inputs)
      × ((pick_source tuning v).output_level < length v.levels)
unfolding compaction_needed pick_source from_level
compaction_needed-pick_source tuning true v needed trigger levels = absurd (cc needed)
compaction_needed-pick_source tuning false v needed trigger levels =
    elim (Bool-cases (leb tuning.l0_compaction_trigger (length v.l0))) [
      | inl full ↦ rw full (ground (arith, full, trigger), levels)
      | inr room ↦
          let found : is_some (oversized 0 tuning.level_base_size v.levels) ≡ true =
            sym (rw room refl) ∙ needed in
          rw room (
            chosen (oversized 0 tuning.level_base_size v.levels) found
              (oversized-IsVictim 0 tuning.level_base_size v.levels))
    ]
  where
    chosen :
        (o : Option (ℕ × List TableRef))
        → is_some o ≡ true
        → IsVictim 0 v.levels o
        → (1 ≤ length (from_level o).inputs) × ((from_level o).output_level < length v.levels)
    chosen none s h = absurd (cc s)
    chosen (some (j, [])) s h = absurd (omega (arith, h.0))
    chosen (some (j, r ∷ rs)) s h = (omega arith, omega (arith, h.1))
