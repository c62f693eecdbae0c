-- ===== src/Db/Scan/Database.antt =====
-- `DB::Scan`, src/db.cpp, over the whole database: the iterators that it opens and the seek leave
-- out nothing that the range could show.
use bedrockkv.Prelude.{
  ℕ, ◌≤◌, ◌<◌, ◌≡◌, refl, true, false, Option, none, some, List, [], ◌∷◌, ◌++◌, map, arith, Bytes,
  All, All-append,
}
use bedrockkv.Prelude.Order.{bytes_lt}
use bedrockkv.Status.{Result, done}
use bedrockkv.Db.Compaction.{Entry}
use bedrockkv.Db.Compaction.Visible.{visible, read}
use bedrockkv.Db.Read.{Table, Version, read_point}
use bedrockkv.Db.Read.Runs.{IsAmong, IsNewest, visible-IsNewest}
use bedrockkv.Db.Read.Newest.{IsLevel, entries, level_entries, version_entries}
use bedrockkv.Db.Scan.{seek, merged, in_range, flat, children, scan_start, scan}
use bedrockkv.Db.Scan.Choice.{IsSorted}
use bedrockkv.Db.Scan.Merging.{merged-IsMergeOf}
use bedrockkv.Db.Scan.Reads.{reported, resolved, scan_loop-reads}
use bedrockkv.Db.Scan.Ascending.{
  IsAscending, IsWithin, seek-from, scan_loop-All, scan_loop-IsAscending,
}
use bedrockkv.Db.Scan.Selection.{
  IsSorted-IsRecent, All-weaken, All-split, All-map, All-unmap, IsAmong-self, All-at, seek-All,
  seek-IsSorted, in_range-All, seek-All-back, entries-All, entries-All-back, levels-All,
  levels-All-back,
}

abbrev pub imm_entries : Option (List Entry) → List Entry
imm_entries none = []
imm_entries (some es) = es

-- Every run of the database is in the order of the iterators.
abbrev pub IsOrdered : (Table → List Entry) → List Entry → Option (List Entry) → Version → Type 0
IsOrdered contents mem imm v =
    IsSorted mem
    × IsSorted (imm_entries imm)
    × All (λ (t : Table). IsSorted (contents t)) v.l0
    × All (All (λ (t : Table). IsSorted (contents t))) v.levels

module _ (contents : Table → List Entry) (mem : List Entry) (imm : Option (List Entry))
    (v : Version) (begin end_key : Bytes) where
  abbrev pub all_entries : List Entry
  all_entries = mem ++ (imm_entries imm ++ version_entries contents v)

  abbrev opened : List (List Entry)
  opened = children contents mem imm v begin end_key

  abbrev imm_child : List (List Entry)
  imm_child = elim imm [ none ↦ [] | some es ↦ es ∷ [] ]

  abbrev table_children : List (List Entry)
  table_children = map contents v.l0 ++ map contents (flat (map (in_range begin end_key) v.levels))

  imm_child-All :
      (P : Entry → Type 0) (o : Option (List Entry))
      → All P (imm_entries o)
      → All (All P) (elim o [ none ↦ [] | some es ↦ es ∷ [] ])
  imm_child-All P none h = tt
  imm_child-All P (some es) h = (h, tt)

  imm_child-All-back :
      (P : Entry → Type 0) (o : Option (List Entry))
      → All (All P) (elim o [ none ↦ [] | some es ↦ es ∷ [] ])
      → All P (imm_entries o)
  imm_child-All-back P none h = tt
  imm_child-All-back P (some es) h = h.0

  opened-All : (P : Entry → Type 0) → All P all_entries → All (All P) opened
  unfolding children
  opened-All P h =
      let (of_mem, others) = All-split P mem (imm_entries imm ++ version_entries contents v) h in
      let (of_imm, of_tables) = All-split P (imm_entries imm) (version_entries contents v) others in
      let (of_l0, of_levels) =
        All-split P (entries contents v.l0) (level_entries contents v.levels) of_tables in
      (
        of_mem,
        All-append (All P) imm_child table_children
            (All-append (All P) (map contents v.l0)
              (map contents (flat (map (in_range begin end_key) v.levels)))
              (All-map (All P) contents (flat (map (in_range begin end_key) v.levels))
                (levels-All contents P begin end_key v.levels of_levels))
              (All-map (All P) contents v.l0 (entries-All-back contents P v.l0 of_l0)))
            (imm_child-All P imm of_imm),
      )

  ranges-All :
      (Q : Table → Type 0) (levels : List (List Table))
      → All (All Q) levels
      → All Q (flat (map (in_range begin end_key) levels))
  ranges-All Q [] h = tt
  ranges-All Q (ts ∷ levels) h =
      All-append Q (in_range begin end_key ts) (flat (map (in_range begin end_key) levels))
        (ranges-All Q levels h.1) (in_range-All Q begin end_key ts h.0)

  imm_child-IsSorted :
      (o : Option (List Entry))
      → IsSorted (imm_entries o)
      → All IsSorted (elim o [ none ↦ [] | some es ↦ es ∷ [] ])
  imm_child-IsSorted none h = tt
  imm_child-IsSorted (some es) h = (h, tt)

  opened-IsSorted : IsOrdered contents mem imm v → All IsSorted opened
  unfolding children
  opened-IsSorted o = (
    o.0,
    All-append IsSorted imm_child table_children
        (All-append IsSorted (map contents v.l0)
          (map contents (flat (map (in_range begin end_key) v.levels)))
          (All-map IsSorted contents (flat (map (in_range begin end_key) v.levels))
            (ranges-All (λ (t : Table). IsSorted (contents t)) v.levels o.3))
          (All-map IsSorted contents v.l0 o.2))
        (imm_child-IsSorted imm o.1),
  )

  module _ (key : Bytes) (seq : ℕ) (from_begin : bytes_lt key begin ≡ false)
      (to_end : bytes_lt key end_key ≡ true) (levels : All (IsLevel contents) v.levels) where
    opened-All-back :
        (P : Entry → Type 0)
        → ((x : Entry) → (x.user ≡ key → seq < x.seq) → P x)
        → All (All P) opened
        → All P all_entries
    unfolding children
    opened-All-back P skipped h =
        let (of_imm, of_tables) = All-split (All P) imm_child table_children h.1 in
        let (of_l0, of_levels) =
          All-split (All P) (map contents v.l0)
            (map contents (flat (map (in_range begin end_key) v.levels))) of_tables in
        All-append P mem (imm_entries imm ++ version_entries contents v)
          (All-append P (imm_entries imm) (version_entries contents v)
            (All-append P (entries contents v.l0) (level_entries contents v.levels)
              (levels-All-back contents key begin end_key seq from_begin to_end P skipped v.levels
                levels
                (All-unmap (All P) contents (flat (map (in_range begin end_key) v.levels))
                  of_levels))
              (entries-All contents P v.l0 (All-unmap (All P) contents v.l0 of_l0)))
            (imm_child-All-back P imm of_imm))
          h.0

    abbrev shown : List Entry
    shown = merged (map (seek begin seq) opened)

    shown-All : (P : Entry → Type 0) → All P all_entries → All P shown
    shown-All P h = (merged-IsMergeOf (map (seek begin seq) opened)).2 P (
        All-map (All P) (seek begin seq) opened (
          All-weaken (All P) (λ es. All P (seek begin seq es)) opened (seek-All P begin seq)
            (opened-All P h)))

    shown-All-back :
        (P : Entry → Type 0)
        → ((x : Entry) → (x.user ≡ key → seq < x.seq) → P x)
        → All P shown
        → All P all_entries
    shown-All-back P skipped h = opened-All-back P skipped (
        All-weaken (λ es. All P (seek begin seq es)) (All P) opened
          (seek-All-back key begin seq from_begin P skipped)
          (All-unmap (All P) (seek begin seq) opened
            ((merged-IsMergeOf (map (seek begin seq) opened)).3 P h)))

    shown-from :
        IsOrdered contents mem imm v → All (λ (x : Entry). bytes_lt x.user begin ≡ false) shown
    shown-from o =
        let P = λ (x : Entry). bytes_lt x.user begin ≡ false in
        (merged-IsMergeOf (map (seek begin seq) opened)).2 P (
          All-map (All P) (seek begin seq) opened (
            All-weaken IsSorted (λ es. All P (seek begin seq es)) opened (seek-from begin seq)
              (opened-IsSorted o)))

    shown-IsSorted : IsOrdered contents mem imm v → IsSorted shown
    shown-IsSorted o = (merged-IsMergeOf (map (seek begin seq) opened)).1 (
        All-map IsSorted (seek begin seq) opened (
          All-weaken IsSorted (λ es. IsSorted (seek begin seq es)) opened (seek-IsSorted begin seq)
            (opened-IsSorted o)))

    IsNewest-of_all : (o : Option Entry) → IsNewest key seq shown o → IsNewest key seq all_entries o
    IsNewest-of_all none h = shown-All-back (λ (x : Entry). x.user ≡ key → seq < x.seq) (λ x s. s) h
    IsNewest-of_all (some e) h = (
      All-at (λ x. IsAmong x all_entries) e shown
          (shown-All (λ x. IsAmong x all_entries) (IsAmong-self all_entries)) h.0,
      h.1,
      h.2,
      shown-All-back (λ (x : Entry). x.user ≡ key → x.seq ≤ seq → x.seq ≤ e.seq)
          (λ x s p le. absurd (omega (arith, s p, le))) h.3,
    )

  -- For a key between begin and end, Scan reports exactly the value of its newest version at or
  -- below the read point over both memory tables and all tables, and reports nothing where that
  -- version is a deletion or missing; and it reports every key at most once, in ascending order,
  -- none outside the range; if every run is in merged order, the levels are sorted and disjoint,
  -- and every value resolves.
  pub scan-IsNewest :
      (key : Bytes) (snapshot : Option ℕ) (real : Bytes → Bytes) (resolve : Bytes → Result Bytes)
      → bytes_lt key begin ≡ false
      → bytes_lt key end_key ≡ true
      → IsOrdered contents mem imm v
      → All (IsLevel contents) v.levels
      → ((stored : Bytes) → resolve stored ≡ done (real stored))
      → (o : Option Entry) × (reported key
            (scan resolve contents mem imm v begin end_key snapshot).0
          ≡ resolved real (read o))
        × IsNewest key (read_point snapshot) all_entries o
        × IsAscending (scan resolve contents mem imm v begin end_key snapshot).0
        × All (IsWithin begin end_key) (scan resolve contents mem imm v begin end_key snapshot).0
  unfolding scan
  scan-IsNewest key snapshot real resolve from_begin to_end ordered levels resolves =
      let seq = read_point snapshot in
      let es = shown key seq from_begin to_end levels in
      let sorted = shown-IsSorted key seq from_begin to_end levels ordered in
      (
        visible key seq es,
        scan_loop-reads real resolve resolves end_key seq key scan_start es to_end (λ h. refl)
            sorted,
        IsNewest-of_all key seq from_begin to_end levels (visible key seq es)
            (visible-IsNewest key seq es (IsSorted-IsRecent es sorted)),
        scan_loop-IsAscending resolve end_key seq es sorted scan_start,
        scan_loop-All resolve end_key seq
            (λ k. (bytes_lt k begin ≡ false) × (bytes_lt k end_key ≡ true)) es
            (All-weaken (λ (x : Entry). bytes_lt x.user begin ≡ false)
              (λ (x : Entry).
                bytes_lt x.user end_key ≡ true
                → (bytes_lt x.user begin ≡ false) × (bytes_lt x.user end_key ≡ true))
              es (λ x p q. (p, q)) (shown-from key seq from_begin to_end levels ordered))
            scan_start,
      )
