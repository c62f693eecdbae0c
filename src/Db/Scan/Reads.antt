-- ===== src/Db/Scan/Reads.antt =====
-- `DB::Scan`, src/db.cpp, against reads of single keys.
use bedrockkv.Prelude.{
  ℕ, ◌≡◌, refl, ap, ◌∙◌, Bool, true, false, inl, inr, Bool-cases, Option, none, some, List, [], ◌∷◌,
  arith, Bytes, All, if◌then◌else◌,
}
use bedrockkv.Prelude.Order.{
  bytes_lt, bytes_eq, bytes_eq_self, eq_of_bytes_eq, bytes_lt_irrefl, bytes_lt_total,
  bytes_lt_asymm, bytes_lt_of_le_right,
}
use bedrockkv.Status.{Result, done}
use bedrockkv.Key.Laws.{entry_less}
use bedrockkv.Db.Compaction.{Entry, new_user}
use bedrockkv.Db.Compaction.Visible.{visible, read}
use bedrockkv.Db.Read.Runs.{IsOther, visible-nothing}
use bedrockkv.Db.Scan.{less, ScanState, scan_enter, Calls, emit, scan_entry, scan_loop}
use bedrockkv.Db.Scan.Choice.{IsNotBefore, IsSorted}

-- The value that the calls report of a key.
unfoldable pub reported : Bytes → List (Bytes × Bytes) → Option Bytes
reported key [] = none
reported key (c ∷ cs) = if bytes_eq c.0 key then some c.1 else reported key cs

unfoldable pub resolved : (Bytes → Bytes) → Option Bytes → Option Bytes
resolved real none = none
resolved real (some stored) = some (real stored)

-- Behind a larger user key stand only larger user keys.
larger_behind :
    (key : Bytes) (e : Entry) (es : List Entry)
    → bytes_lt key e.user ≡ true
    → All (IsNotBefore e) es
    → All (IsOther key) es
unfolding less entry_less
larger_behind key e [] lt h = tt
larger_behind key e (x ∷ xs) lt h = (
  ground (
    arith,
    lt,
    h.0,
    eq_of_bytes_eq x.user e.user,
    eq_of_bytes_eq x.user key,
    bytes_lt_irrefl key,
    bytes_lt_total x.user e.user,
    bytes_lt_asymm key x.user,
    bytes_lt_asymm e.user x.user,
  ),
  larger_behind key e xs lt h.1,
)

module _ (real : Bytes → Bytes) (resolve : Bytes → Result Bytes)
    (resolves : (stored : Bytes) → resolve stored ≡ done (real stored)) (end_key : Bytes) (seq : ℕ)
    (key : Bytes) where
  abbrev scanned : ScanState → List Entry → Calls
  scanned s es = scan_loop resolve end_key seq s es

  other_calls :
      (s : ScanState) (es : List Entry)
      → All (IsOther key) es
      → reported key (scanned s es).0 ≡ none
  unfolding scan_loop scan_entry reported
  other_calls s [] h = refl
  other_calls s (e ∷ es) h = ground (
    arith,
    h.0,
    resolves e.value,
    other_calls (scan_enter s e) es h.1,
    other_calls (record { current_user = (scan_enter s e).current_user; current_emitted = true }) es
        h.1,
  )

  abbrev standing : Bool → ScanState
  standing emitted = record { current_user = some key; current_emitted = emitted }

  -- Behind a version of the key stand only versions of it and larger keys.
  above_key :
      (b e : Entry)
      → b.user ≡ key
      → IsNotBefore b e
      → bytes_eq e.user key ≡ false
      → bytes_lt key e.user ≡ true
  unfolding less entry_less
  above_key b e p h differs =
      ground (arith, p, h, differs, bytes_eq_self key, bytes_lt_total e.user key)

  -- Once a version of the key has passed, nothing more is reported of it.
  emitted_calls :
      (b : Entry) (es : List Entry)
      → b.user ≡ key
      → All (IsNotBefore b) es
      → IsSorted es
      → reported key (scanned (standing true) es).0 ≡ none
  unfolding scan_loop scan_entry scan_enter new_user reported
  emitted_calls b [] q h o = refl
  emitted_calls b (e ∷ es) q h o = elim (Bool-cases (bytes_eq e.user key)) [
    | inl same ↦
        ground
          (arith, eq_of_bytes_eq e.user key same, bytes_eq_self key, emitted_calls b es q h.1 o.1)
    | inr differs ↦
        other_calls (standing true) (e ∷ es)
          (differs, larger_behind key e es (above_key b e q h.0 differs) o.0)
  ]

  -- The round at a version of the key when none has passed.
  key_calls :
      (e : Entry) (es : List Entry)
      → e.user ≡ key
      → bytes_lt key end_key ≡ true
      → IsSorted (e ∷ es)
      → reported key (scanned (standing false) es).0 ≡ resolved real (read (visible key seq es))
      → reported key (scan_entry resolve seq (standing false) e (λ t. scanned t es)).0
        ≡ resolved real (read (visible key seq (e ∷ es)))
  unfolding scan_entry emit reported visible read resolved
  key_calls e es p lt o ih =
      let passed = emitted_calls e es p o.0 o.1 in
      ground (arith, p, bytes_eq_self key, resolves e.value, ih, passed)

  entered_key :
      (s : ScanState) (e : Entry)
      → e.user ≡ key
      → (new_user s.current_user key ≡ false → s.current_emitted ≡ false)
      → scan_enter s e ≡ standing false
  unfolding scan_enter new_user
  entered_key s e p fresh = entered s.current_user refl
    where
      entered : (o : Option Bytes) → s.current_user ≡ o → scan_enter s e ≡ standing false
      entered none h = ground (arith, p, h)
      entered (some u) h = ground (arith, p, h, fresh, eq_of_bytes_eq e.user u, bytes_eq_self key)

  entered_other :
      (s : ScanState) (e : Entry)
      → bytes_eq e.user key ≡ false
      → new_user (scan_enter s e).current_user key ≡ true
  unfolding scan_enter new_user
  entered_other s e differs = entered s.current_user refl
    where
      entered :
          (o : Option Bytes)
          → s.current_user ≡ o
          → new_user (scan_enter s e).current_user key ≡ true
      entered none h = ground (arith, h, differs, eq_of_bytes_eq key e.user, bytes_eq_self e.user)
      entered (some u) h = ground (
        arith,
        h,
        differs,
        eq_of_bytes_eq u e.user,
        eq_of_bytes_eq e.user u,
        eq_of_bytes_eq key e.user,
        eq_of_bytes_eq u key,
        eq_of_bytes_eq key u,
        bytes_eq_self e.user,
        bytes_eq_self key,
      )

  scan_round :
      (s : ScanState) (e : Entry) (es : List Entry)
      → bytes_lt e.user end_key ≡ true
      → scanned s (e ∷ es) ≡ scan_entry resolve seq (scan_enter s e) e (λ t. scanned t es)
  unfolding scan_loop
  scan_round s e es lt = rw lt refl

  other_round :
      (t : ScanState) (e : Entry) (es : List Entry)
      → bytes_eq e.user key ≡ false
      → reported key (scanned t es).0 ≡ resolved real (read (visible key seq es))
      → reported key (scanned (record t { current_emitted = true }) es).0
        ≡ resolved real (read (visible key seq es))
      → reported key (scan_entry resolve seq t e (λ t'. scanned t' es)).0
        ≡ resolved real (read (visible key seq (e ∷ es)))
  unfolding scan_entry emit reported visible
  other_round t e es differs h k = ground (arith, differs, resolves e.value, h, k)

  past_end :
      (s : ScanState) (e : Entry) (es : List Entry)
      → bytes_lt key end_key ≡ true
      → bytes_lt e.user end_key ≡ false
      → IsSorted (e ∷ es)
      → reported key (scanned s (e ∷ es)).0 ≡ resolved real (read (visible key seq (e ∷ es)))
  unfolding scan_loop reported resolved read
  past_end s e es lt past o =
      let larger = bytes_lt_of_le_right key end_key e.user lt past in
      let differs : bytes_eq e.user key ≡ false =
        ground (arith, larger, eq_of_bytes_eq e.user key, bytes_lt_irrefl key) in
      rw (past, visible-nothing key seq (e ∷ es) (differs, larger_behind key e es larger o.0)) refl

  -- From a state in which no version of the key has passed.
  pub scan_loop-reads :
      (s : ScanState) (es : List Entry)
      → bytes_lt key end_key ≡ true
      → (new_user s.current_user key ≡ false → s.current_emitted ≡ false)
      → IsSorted es
      → reported key (scanned s es).0 ≡ resolved real (read (visible key seq es))
  scan_loop-reads s [] lt fresh o = unfold scan_loop reported resolved read visible in refl
  scan_loop-reads s (e ∷ es) lt fresh o =
      let at_key = scan_loop-reads (standing false) es lt (λ h. refl) o.1 in
      let t = scan_enter s e in
      let other = λ (differs : bytes_eq e.user key ≡ false).
        scan_loop-reads t es lt (λ h. absurd (cc (h, entered_other s e differs))) o.1 in
      let other_emitted = λ (differs : bytes_eq e.user key ≡ false).
        scan_loop-reads (record t { current_emitted = true }) es lt
          (λ h. absurd (cc (h, entered_other s e differs))) o.1 in
      elim (Bool-cases (bytes_lt e.user end_key)) [
        | inr past ↦ past_end s e es lt past o
        | inl within ↦
            ap (λ (c : Calls). reported key c.0) (scan_round s e es within)
            ∙ elim (Bool-cases (bytes_eq e.user key)) [
              | inl same ↦
                  let p = eq_of_bytes_eq e.user key same in
                  ap
                    (λ (t : ScanState).
                      reported key (scan_entry resolve seq t e (λ t'. scanned t' es)).0)
                    (entered_key s e p fresh)
                  ∙ key_calls e es p lt o at_key
              | inr differs ↦ other_round t e es differs (other differs) (other_emitted differs)
            ]
      ]
