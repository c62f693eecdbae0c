-- ===== src/Db/Compaction/Retention.antt =====
-- Compaction drops no version that a live snapshot or a latest read can see.
use bedrockkv.Prelude.{
  ℕ, ◌≤◌, ◌<◌, ◌≡◌, refl, ap, sym, ◌∙◌, subst, Bool, true, false, inl, inr, Bool-cases, List, [],
  ◌∷◌, Option, none, some, arith, Bytes, All, ◌==◌, if◌then◌else◌,
}
use bedrockkv.Prelude.Order.{
  bytes_eq, bytes_lt, eq_of_bytes_eq, bytes_eq_self, bytes_lt_asymm, bytes_lt_trans,
  bytes_lt_irrefl, bytes_eq-lt,
}
use bedrockkv.Key.{type_deletion}
use bedrockkv.Key.Laws.{entry_less}
use bedrockkv.Db.Compaction.{
  Entry, Merge, new_user, enter_user, retain, mark_floor, merge_loop, start, compact,
}
use bedrockkv.Db.Compaction.Visible.{visible, read, Behind, IsMerged}

-- After the test on the user key the loop stands at that key.
enter_current : (m : Merge) (e : Entry) → new_user (enter_user m e).current_user e.user ≡ false
unfolding enter_user new_user
enter_current m e = ground (arith, bytes_eq_self e.user)

module _ (floor : ℕ) (bottom : Bool) (key : Bytes) (seq : ℕ) where
  -- No version of the key comes in, none comes out.
  other_keys :
      (m : Merge) (es : List Entry)
      → All (λ x. bytes_eq x.user key ≡ false) es
      → visible key seq (merge_loop floor bottom m es) ≡ none
  unfolding visible merge_loop
  other_keys m [] h = refl
  other_keys m (e ∷ es) h = ground (arith, other_keys (mark_floor floor (enter_user m e) e) es h.1)

-- Behind a larger user key stand only larger user keys.
Behind-larger :
    (key u : Bytes) (s : ℕ) (es : List Entry)
    → bytes_lt key u ≡ true
    → All (Behind u s) es
    → All (λ x. bytes_eq x.user key ≡ false) es
unfolding entry_less
Behind-larger key u s [] lt h = tt
Behind-larger key u s (e ∷ es) lt h = (
  ground (
    arith,
    h.0,
    eq_of_bytes_eq u e.user,
    eq_of_bytes_eq e.user key,
    bytes_eq-lt u e.user,
    bytes_lt_asymm key e.user,
    bytes_lt_trans key u e.user,
    bytes_lt_irrefl key,
  ),
  Behind-larger key u s es lt h.1,
)

module _ (floor : ℕ) (bottom : Bool) (key : Bytes) (seq : ℕ) where
  -- Once the floor version of a key has passed, nothing more of that key is kept.
  after_floor :
      (s : ℕ) (es : List Entry)
      → s ≤ floor
      → All (Behind key s) es
      → IsMerged es
      → visible key seq (
          merge_loop floor bottom
            (record { current_user = some key; floor_version_seen = true })
            es)
        ≡ none
  unfolding visible merge_loop entry_less
  after_floor s [] hs h o = refl
  after_floor s (e ∷ es) hs h o = elim (Bool-cases (bytes_eq e.user key)) [
    | inl same ↦ ground (
      arith,
      h.0,
      same,
      eq_of_bytes_eq e.user key,
      bytes_eq_self key,
      after_floor s es hs h.1 o.1,
    )
    | inr differs ↦ ground (
      arith,
      h.0,
      differs,
      eq_of_bytes_eq key e.user,
      bytes_eq_self key,
      other_keys floor bottom key seq
          (mark_floor floor (record { current_user = some e.user; floor_version_seen = false }) e)
          es
          (Behind-larger key e.user e.seq es
            (ground (arith, h.0, differs, eq_of_bytes_eq key e.user, bytes_eq_self key)) o.0),
    )
  ]

module _ (floor : ℕ) (bottom : Bool) (key : Bytes) (seq : ℕ) (above : floor ≤ seq) where
  -- The step at an entry of another key: the state then stands at that other key.
  skip_other :
      (m : Merge) (e : Entry) (es : List Entry)
      → bytes_eq e.user key ≡ false
      → visible key seq (merge_loop floor bottom m (e ∷ es))
        ≡ visible key seq (merge_loop floor bottom (mark_floor floor (enter_user m e) e) es)
  unfolding visible merge_loop
  skip_other m e es differs = ground (arith, differs)

  other_state :
      (m : Merge) (e : Entry)
      → bytes_eq e.user key ≡ false
      → new_user (mark_floor floor (enter_user m e) e).current_user key ≡ true
  unfolding mark_floor enter_user new_user
  other_state m e differs = ground (
    arith,
    differs,
    bytes_eq_self e.user,
    eq_of_bytes_eq key e.user,
    eq_of_bytes_eq e.user key,
    current m.current_user,
  )
    where
      current : (o : Option Bytes) → new_user o e.user ≡ false → o ≡ some e.user
      current none h = cc
      current (some u) h = ground (arith, eq_of_bytes_eq e.user u)

  visible_other :
      (e : Entry) (es : List Entry)
      → bytes_eq e.user key ≡ false
      → visible key seq (e ∷ es) ≡ visible key seq es
  unfolding visible
  visible_other e es differs = ground (arith, differs)

  abbrev at_key : Merge
  at_key = record { current_user = some key; floor_version_seen = false }

  -- The step at a version of the key above the floor: it is kept, and the state stays.
  above_floor :
      (e : Entry) (es : List Entry)
      → floor < e.seq
      → visible key seq (merge_loop floor bottom at_key es) ≡ visible key seq es
      → visible key seq (e ∷ merge_loop floor bottom at_key es) ≡ visible key seq (e ∷ es)
  unfolding visible
  above_floor e es lt ih = ground (arith, ih)

  -- At an entry of the key whose floor version has not passed, the state is that of a new key.
  enter_at_key :
      (m : Merge) (e : Entry)
      → e.user ≡ key
      → (new_user m.current_user key ≡ false → m.floor_version_seen ≡ false)
      → enter_user m e ≡ at_key
  unfolding enter_user new_user
  enter_at_key m e same fresh = entered m.current_user refl
    where
      entered : (o : Option Bytes) → m.current_user ≡ o → enter_user m e ≡ at_key
      entered none h = ground (arith, same, h)
      entered (some u) h =
          ground (arith, same, h, fresh, eq_of_bytes_eq e.user u, bytes_eq_self key)

  loop_at_key :
      (m : Merge) (e : Entry) (es : List Entry)
      → enter_user m e ≡ at_key
      → merge_loop floor bottom m (e ∷ es) ≡ (
          if retain floor bottom at_key e
          then e ∷ merge_loop floor bottom (mark_floor floor at_key e) es
          else merge_loop floor bottom (mark_floor floor at_key e) es)
  unfolding merge_loop
  loop_at_key m e es p =
      ap
        (λ (n : Merge).
          let rest = merge_loop floor bottom (mark_floor floor n e) es in
          if retain floor bottom n e then e ∷ rest else rest)
        p

  -- What is read of a version, where a tombstone that the bottom level drops reads like nothing.
  module _ {B : Type 0} (observe : Option Entry → B)
      (drops : (e : Entry)
        → bottom ≡ true
        → (e.type == type_deletion) ≡ true
        → observe (some e) ≡ observe none) where
    -- The step at a version of the key, from the state in which no floor version has passed.
    keep_at_key :
        (e : Entry) (es : List Entry)
        → e.user ≡ key
        → IsMerged (e ∷ es)
        → observe (visible key seq (merge_loop floor bottom at_key es))
          ≡ observe (visible key seq es)
        → observe (
            visible key seq (
              if retain floor bottom at_key e
              then e ∷ merge_loop floor bottom (mark_floor floor at_key e) es
              else merge_loop floor bottom (mark_floor floor at_key e) es))
          ≡ observe (visible key seq (e ∷ es))
    unfolding retain mark_floor visible
    keep_at_key e es same o ih = ground (arith, same, bytes_eq_self key, ih, behind_floor, drops e)
      where
        behind_floor :
            e.seq ≤ floor
            → visible key seq (
                merge_loop floor bottom
                  (record { current_user = some key; floor_version_seen = true })
                  es)
              ≡ none
        behind_floor le =
            after_floor floor bottom key seq e.seq es le
              (subst (λ (u : Bytes). All (Behind u e.seq) es) same o.0) o.1

    merge_loop_keeps :
        (m : Merge) (es : List Entry)
        → (new_user m.current_user key ≡ false → m.floor_version_seen ≡ false)
        → IsMerged es
        → observe (visible key seq (merge_loop floor bottom m es)) ≡ observe (visible key seq es)
    merge_loop_keeps m [] fresh o = unfold merge_loop in refl
    merge_loop_keeps m (e ∷ es) fresh o = elim (Bool-cases (bytes_eq e.user key)) [
      | inr differs ↦
          ap observe (skip_other m e es differs)
          ∙ merge_loop_keeps (mark_floor floor (enter_user m e) e) es
              (λ h. cc (other_state m e differs)) o.1
          ∙ ap observe (sym (visible_other e es differs))
      | inl same ↦
          let p = eq_of_bytes_eq e.user key same in
          ap (λ (l : List Entry). observe (visible key seq l))
            (loop_at_key m e es (enter_at_key m e p fresh))
          ∙ keep_at_key e es p o (merge_loop_keeps at_key es (λ h. refl) o.1)
    ]

-- A read at any sequence number at or above the snapshot floor gives the same from the compacted
-- run as from the merged input, also at the bottom level; and where the output is not the bottom
-- level, it finds the same entry, tombstones included; if the input is in merged order.
pub read-compact :
    (floor seq : ℕ) (bottom : Bool) (key : Bytes) (es : List Entry)
    → floor ≤ seq
    → IsMerged es
    → (read (visible key seq (compact floor bottom es)) ≡ read (visible key seq es))
      × (visible key seq (compact floor false es) ≡ visible key seq es)
unfolding compact new_user
read-compact floor seq bottom key es above o = (
  merge_loop_keeps floor bottom key seq above read (λ e b t. unfold read in ground (arith, t)) start
      es (λ h. cc) o,
  merge_loop_keeps floor false key seq above (λ (x : Option Entry). x) (λ e b t. absurd (cc b))
      start es (λ h. cc) o,
)
