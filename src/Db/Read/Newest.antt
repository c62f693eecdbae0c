-- ===== src/Db/Read/Newest.antt =====
-- What a lookup finds, src/db.cpp: the newest version of the key at or below the read point, over
-- all runs of the database.
use bedrockkv.Prelude.{
  ℕ, ◌≡◌, refl, ap, sym, ◌∙◌, true, false, inl, inr, Bool-cases, Option, none, some, List, [], ◌∷◌,
  ◌++◌, Bytes, All, All-append, append_assoc,
}
use bedrockkv.Prelude.Order.{bytes_lt, bytes_lt_trans, bytes_lt_of_le_right}
use bedrockkv.Status.{ok}
use bedrockkv.Db.Compaction.{Entry}
use bedrockkv.Db.Compaction.Visible.{visible}
use bedrockkv.Db.Read.{
  Table, Version, decide, or_else, decide_memory, MemoryGet, last_not_above, probe_file,
  lookup_levels, lookup_l0, probe_imm, lookup_in,
}
use bedrockkv.Db.Read.Runs.{
  outcome, answered, or_else-run, or_else-memory_run, IsOther, skip_run, IsOther-below,
  IsOther-above, IsRecent, IsNewest, visible-IsNewest,
}

-- The entries of a database, by the runs that hold them.
module _ (contents : Table → List Entry) where
  -- A table answers from its entries.
  abbrev pub IsServed : Table → Type 0
  IsServed t = (key : Bytes) (seq : ℕ) → t.get key seq ≡ answered (contents t) key seq

  abbrev pub IsWithin : Table → Entry → Type 0
  IsWithin t e =
      (bytes_lt e.user t.smallest_user_key ≡ false) × (bytes_lt t.largest_user_key e.user ≡ false)

  -- The keys of a table lie within its bounds.
  abbrev pub IsBounded : Table → Type 0
  IsBounded t = All (IsWithin t) (contents t)

  abbrev pub IsLeftOf : Table → Table → Type 0
  IsLeftOf t u = bytes_lt t.largest_user_key u.smallest_user_key ≡ true

  -- The files of a level: sorted, with disjoint ranges.
  abbrev pub IsLevel : List Table → Type 0
  IsLevel [] = Unit
  IsLevel (t ∷ ts) =
      (bytes_lt t.largest_user_key t.smallest_user_key ≡ false)
      × All (IsLeftOf t) ts
      × IsServed t
      × IsBounded t
      × IsLevel ts

  abbrev pub entries : List Table → List Entry
  entries [] = []
  entries (t ∷ ts) = contents t ++ entries ts

  abbrev pub level_entries : List (List Table) → List Entry
  level_entries [] = []
  level_entries (ts ∷ levels) = entries ts ++ level_entries levels

  pub below_key :
      (key : Bytes) (t : Table) (es : List Entry)
      → All (IsWithin t) es
      → bytes_lt t.largest_user_key key ≡ true
      → All (IsOther key) es
  below_key key t [] h lt = tt
  below_key key t (e ∷ es) h lt =
      (IsOther-below key t.largest_user_key e lt h.0.1, below_key key t es h.1 lt)

  above_key :
      (key : Bytes) (t : Table) (es : List Entry)
      → All (IsWithin t) es
      → bytes_lt key t.smallest_user_key ≡ true
      → All (IsOther key) es
  above_key key t [] h lt = tt
  above_key key t (e ∷ es) h lt =
      (IsOther-above key t.smallest_user_key e lt h.0.0, above_key key t es h.1 lt)

  -- From the first file whose smallest key is above the key, the level has no version of the key.
  pub level_above :
      (key : Bytes) (t : Table) (ts : List Table)
      → IsLevel (t ∷ ts)
      → bytes_lt key t.smallest_user_key ≡ true
      → All (IsOther key) (entries (t ∷ ts))
  level_above key t [] h lt =
      All-append (IsOther key) (contents t) [] tt (above_key key t (contents t) h.3 lt)
  level_above key t (u ∷ us) h lt =
      let next = level_above key u us h.4 (
        bytes_lt_trans key t.largest_user_key u.smallest_user_key
          (bytes_lt_of_le_right key t.smallest_user_key t.largest_user_key lt h.0) h.1.0) in
      All-append (IsOther key) (contents t) (entries (u ∷ us)) next
        (above_key key t (contents t) h.3 lt)

  probe_run :
      (key : Bytes) (seq : ℕ) (t : Table) (rest ys : List Entry)
      → IsServed t
      → IsBounded t
      → All (IsOther key) rest
      → or_else (probe_file key seq (some t)) (answered ys key seq)
        ≡ answered ((contents t ++ rest) ++ ys) key seq
  unfolding probe_file or_else
  probe_run key seq t rest ys served bounded none_left =
      elim (Bool-cases (bytes_lt t.largest_user_key key)) [
        | inl gap ↦ rw gap (
            sym (
              skip_run key seq (contents t ++ rest) ys (
                All-append (IsOther key) (contents t) rest none_left
                  (below_key key t (contents t) bounded gap))))
        | inr here ↦
            rw (here, served key seq)
              (ap (or_else (decide (answered (contents t) key seq)))
                  (sym (skip_run key seq rest ys none_left))
                ∙ or_else-run (contents t) (rest ++ ys) key seq
                ∙ ap (λ (es : List Entry). answered es key seq)
                    (sym (append_assoc (contents t) rest ys)))
      ]

  -- The file that the search of a level finds answers for the whole level.
  level_run :
      (key : Bytes) (seq : ℕ) (t : Table) (ts : List Table) (ys : List Entry)
      → IsLevel (t ∷ ts)
      → bytes_lt key t.smallest_user_key ≡ false
      → or_else (probe_file key seq (last_not_above key (some t) ts)) (answered ys key seq)
        ≡ answered (entries (t ∷ ts) ++ ys) key seq
  unfolding last_not_above
  level_run key seq t [] ys h le = probe_run key seq t [] ys h.2 h.3 tt
  level_run key seq t (u ∷ us) ys h le = elim (Bool-cases (bytes_lt key u.smallest_user_key)) [
    | inl stop ↦
        rw stop (probe_run key seq t (entries (u ∷ us)) ys h.2 h.3 (level_above key u us h.4 stop))
    | inr further ↦
        let right : bytes_lt t.largest_user_key key ≡ true =
          bytes_lt_of_le_right t.largest_user_key u.smallest_user_key key h.1.0 further in
        rw further (
          level_run key seq u us ys h.4 further
          ∙ sym (
              skip_run key seq (contents t) (entries (u ∷ us) ++ ys)
                (below_key key t (contents t) h.3 right))
          ∙ ap (λ (es : List Entry). answered es key seq)
              (sym (append_assoc (contents t) (entries (u ∷ us)) ys)))
  ]

  level_answer :
      (key : Bytes) (seq : ℕ) (ts : List Table) (ys : List Entry)
      → IsLevel ts
      → or_else (probe_file key seq (last_not_above key none ts)) (answered ys key seq)
        ≡ answered (entries ts ++ ys) key seq
  unfolding last_not_above probe_file or_else
  level_answer key seq [] ys h = refl
  level_answer key seq (t ∷ ts) ys h = elim (Bool-cases (bytes_lt key t.smallest_user_key)) [
    | inl left ↦
        rw left (sym (skip_run key seq (entries (t ∷ ts)) ys (level_above key t ts h left)))
    | inr further ↦ rw further (level_run key seq t ts ys h further)
  ]

  levels_answer :
      (key : Bytes) (seq : ℕ) (levels : List (List Table))
      → All IsLevel levels
      → lookup_levels key seq levels ≡ answered (level_entries levels) key seq
  unfolding lookup_levels
  levels_answer key seq [] h = unfold visible outcome in refl
  levels_answer key seq (ts ∷ levels) h =
      ap (or_else (probe_file key seq (last_not_above key none ts)))
        (levels_answer key seq levels h.1)
      ∙ level_answer key seq ts (level_entries levels) h.0

  l0_answer :
      (key : Bytes) (seq : ℕ) (ts : List Table) (ys : List Entry)
      → All IsServed ts
      → lookup_l0 key seq ts (answered ys key seq) ≡ answered (entries ts ++ ys) key seq
  unfolding lookup_l0
  l0_answer key seq [] ys h = refl
  l0_answer key seq (t ∷ ts) ys h = rw (h.0 key seq) (
      ap (or_else (decide (answered (contents t) key seq))) (l0_answer key seq ts ys h.1)
      ∙ or_else-run (contents t) (entries ts ++ ys) key seq
      ∙ ap (λ (es : List Entry). answered es key seq)
          (sym (append_assoc (contents t) (entries ts) ys)))

  abbrev pub version_entries : Version → List Entry
  version_entries v = entries v.l0 ++ level_entries v.levels

  -- A memory table answers from its entries.
  abbrev pub IsMemory : MemoryGet → List Entry → Type 0
  IsMemory mem es = (key : Bytes) (seq : ℕ) → mem key seq ≡ outcome (visible key seq es)

  abbrev pub IsImmutable : Option MemoryGet → List Entry → Type 0
  IsImmutable none es = es ≡ []
  IsImmutable (some imm) es = IsMemory imm es

  imm_answer :
      (key : Bytes) (seq : ℕ) (imm : Option MemoryGet) (xs ys : List Entry)
      → IsImmutable imm xs
      → or_else (probe_imm key seq imm) (answered ys key seq) ≡ answered (xs ++ ys) key seq
  unfolding probe_imm or_else
  imm_answer key seq none xs ys h = rw h refl
  imm_answer key seq (some imm) xs ys h = rw (h key seq) (or_else-memory_run xs ys key seq)

  -- All versions that a database holds, newest run first.
  abbrev pub database : List Entry → List Entry → Version → List Entry
  database mem_es imm_es v = mem_es ++ (imm_es ++ version_entries v)

  module _ (mem : MemoryGet) (imm : Option MemoryGet) (v : Version) (mem_es imm_es : List Entry)
      (mem_holds : IsMemory mem mem_es) (imm_holds : IsImmutable imm imm_es)
      (l0_holds : All IsServed v.l0) (levels_hold : All IsLevel v.levels) where
    pub lookup_in-answered :
        (key : Bytes) (seq : ℕ)
        → lookup_in mem imm v key seq ≡ answered (database mem_es imm_es v) key seq
    unfolding lookup_in
    lookup_in-answered key seq = rw (mem_holds key seq) (
        ap
          (λ r.
            or_else (decide_memory (outcome (visible key seq mem_es)))
              (or_else (probe_imm key seq imm) (lookup_l0 key seq v.l0 r)))
          (levels_answer key seq v.levels levels_hold)
        ∙ ap
            (λ r.
              or_else (decide_memory (outcome (visible key seq mem_es)))
                (or_else (probe_imm key seq imm) r))
            (l0_answer key seq v.l0 (level_entries v.levels) l0_holds)
        ∙ ap (or_else (decide_memory (outcome (visible key seq mem_es))))
            (imm_answer key seq imm imm_es (version_entries v) imm_holds)
        ∙ or_else-memory_run mem_es (imm_es ++ version_entries v) key seq)

    -- LookupIn answers from the newest version of the key at or below the read point, over all
    -- runs of the database; if the memory tables and tables answer from their entries, the levels
    -- are sorted and disjoint, and newer versions of a key stand in newer runs.
    pub lookup_in-IsNewest :
        (key : Bytes) (seq : ℕ)
        → IsRecent (database mem_es imm_es v)
        → (o : Option Entry) × (lookup_in mem imm v key seq ≡ (outcome o, ok))
          × IsNewest key seq (database mem_es imm_es v) o
    lookup_in-IsNewest key seq recent = (
      visible key seq (database mem_es imm_es v),
      lookup_in-answered key seq,
      visible-IsNewest key seq (database mem_es imm_es v) recent,
    )
