-- ===== src/Db/Scan/Ascending.antt =====
-- The calls of `DB::Scan`, src/db.cpp: every key once, in order, within the range.
use bedrockkv.Prelude.{
  ℕ, ◌≡◌, refl, sym, subst, true, false, inl, inr, Bool-cases, Option, none, some, List, [], ◌∷◌,
  arith, Bytes, All, leb, ◌==◌,
}
use bedrockkv.Prelude.Order.{
  bytes_lt, bytes_eq, eq_of_bytes_eq, bytes_lt_total, bytes_lt_asymm, bytes_lt_irrefl,
  bytes_lt_of_le_right,
}
use bedrockkv.Status.{Result, done, failed}
use bedrockkv.Key.{type_value}
use bedrockkv.Key.Laws.{entry_less}
use bedrockkv.Db.Compaction.{Entry, new_user}
use bedrockkv.Db.Scan.{less, seek, ScanState, scan_enter, Calls, emit, scan_entry, scan_loop}
use bedrockkv.Db.Scan.Choice.{IsNotBefore, IsSorted}

-- The keys of the calls are in strictly ascending order.
abbrev pub IsAbove : Bytes → Bytes × Bytes → Type 0
IsAbove user c = bytes_lt user c.0 ≡ true

abbrev pub IsAscending : List (Bytes × Bytes) → Type 0
IsAscending [] = Unit
IsAscending (c ∷ cs) = All (IsAbove c.0) cs × IsAscending cs

abbrev pub IsWithin : Bytes → Bytes → Bytes × Bytes → Type 0
IsWithin begin end_key c = (bytes_lt c.0 begin ≡ false) × (bytes_lt c.0 end_key ≡ true)

-- Users behind an entry are not smaller than its user.
user_behind : (b e : Entry) → IsNotBefore b e → bytes_lt e.user b.user ≡ false
unfolding less entry_less
user_behind b e h = ground (arith, h, eq_of_bytes_eq e.user b.user, bytes_lt_asymm e.user b.user)

larger_user :
    (b e : Entry) → IsNotBefore b e → bytes_eq e.user b.user ≡ false → bytes_lt b.user e.user ≡ true
larger_user b e h differs = ground (arith, user_behind b e h, differs, bytes_lt_total e.user b.user)

larger_users :
    (user : Bytes) (e : Entry) (es : List Entry)
    → bytes_lt user e.user ≡ true
    → All (IsNotBefore e) es
    → All (λ (x : Entry). bytes_lt user x.user ≡ true) es
larger_users user e [] lt h = tt
larger_users user e (x ∷ xs) lt h = (
  bytes_lt_of_le_right user e.user x.user lt (user_behind e x h.0),
  larger_users user e xs lt h.1,
)

-- Behind its seek an iterator shows no key in front of the target.
pub seek-from :
    (begin : Bytes) (seq : ℕ) (es : List Entry)
    → IsSorted es
    → All (λ (x : Entry). bytes_lt x.user begin ≡ false) (seek begin seq es)
unfolding seek
seek-from begin seq [] h = tt
seek-from begin seq (e ∷ es) h =
    let rest = seek-from begin seq es h.1 in
    elim (Bool-cases (entry_less e.user e.seq begin seq)) [
      | inl before ↦ rw before rest
      | inr from ↦
          let at_e : bytes_lt e.user begin ≡ false = not_below e from in
          rw from (at_e, along e es at_e h.0)
    ]
  where
    not_below :
        (x : Entry) → entry_less x.user x.seq begin seq ≡ false → bytes_lt x.user begin ≡ false
    not_below x p =
        unfold entry_less in ground (arith, p, eq_of_bytes_eq x.user begin, bytes_lt_irrefl x.user)

    along :
        (e : Entry) (xs : List Entry)
        → bytes_lt e.user begin ≡ false
        → All (IsNotBefore e) xs
        → All (λ (x : Entry). bytes_lt x.user begin ≡ false) xs
    along e [] p k = tt
    along e (x ∷ xs) p k = (
      ground (arith, p, user_behind e x k.0, bytes_lt_of_le_right x.user begin e.user),
      along e xs p k.1,
    )

module _ (resolve : Bytes → Result Bytes) (end_key : Bytes) (seq : ℕ) where
  abbrev scanned : ScanState → List Entry → Calls
  scanned s es = scan_loop resolve end_key seq s es

  emit-All :
      (P : Bytes → Type 0) (user : Bytes) (r : Result Bytes) (rest : Calls)
      → P user
      → All (λ (c : Bytes × Bytes). P c.0) rest.0
      → All (λ (c : Bytes × Bytes). P c.0) (emit user r rest).0
  unfolding emit
  emit-All P user (failed s) rest p h = tt
  emit-All P user (done value) rest p h = (p, h)

  scan_entry-All :
      (P : Bytes → Type 0) (s : ScanState) (e : Entry) (next : ScanState → Calls)
      → P e.user
      → ((t : ScanState) → All (λ (c : Bytes × Bytes). P c.0) (next t).0)
      → All (λ (c : Bytes × Bytes). P c.0) (scan_entry resolve seq s e next).0
  unfolding scan_entry
  scan_entry-All P s e next p h = elim (Bool-cases s.current_emitted) [
    | inl over ↦ simp over (h s)
    | inr first ↦ elim (Bool-cases (leb e.seq seq)) [
      | inr hidden ↦ simp (first, hidden) (h s)
      | inl seen ↦ elim (Bool-cases (e.type == type_value)) [
        | inl value ↦
            rw (first, seen, value)
              (emit-All P e.user (resolve e.value) (next (record s { current_emitted = true })) p
                (h (record s { current_emitted = true })))
        | inr deletion ↦ simp (first, seen, deletion) (h (record s { current_emitted = true }))
      ]
    ]
  ]

  -- Every reported key is the key of an entry in front of the end.
  pub scan_loop-All :
      (P : Bytes → Type 0) (es : List Entry)
      → All (λ (e : Entry). bytes_lt e.user end_key ≡ true → P e.user) es
      → (s : ScanState) → All (λ (c : Bytes × Bytes). P c.0) (scanned s es).0
  unfolding scan_loop
  scan_loop-All P [] h s = tt
  scan_loop-All P (e ∷ es) h s =
      let rest = scan_loop-All P es h.1 in
      elim (Bool-cases (bytes_lt e.user end_key)) [
        | inr past ↦ rw past tt
        | inl within ↦
            rw within (scan_entry-All P (scan_enter s e) e (λ t. scanned t es) (h.0 within) rest)
      ]

  abbrev emitted : Bytes → ScanState
  emitted user = record { current_user = some user; current_emitted = true }

  entered_emitted :
      (s : ScanState) (e : Entry)
      → ◌≡◌ {A = ScanState} (record (scan_enter s e) { current_emitted = true }) (emitted e.user)
  unfolding scan_enter new_user
  entered_emitted s e = entered s.current_user refl
    where
      entered :
          (o : Option Bytes)
          → s.current_user ≡ o
          → ◌≡◌ {A = ScanState}
              (record (scan_enter s e) { current_emitted = true })
              (emitted e.user)
      entered none h = ground (arith, h)
      entered (some u) h = ground (arith, h, eq_of_bytes_eq e.user u)

  -- Behind a version that was reported only larger keys are.
  emitted-IsAbove :
      (b : Entry) (es : List Entry)
      → All (IsNotBefore b) es
      → IsSorted es
      → All (IsAbove b.user) (scanned (emitted b.user) es).0
  emitted-IsAbove b [] h o = unfold scan_loop in tt
  emitted-IsAbove b (e ∷ es) h o =
      let rest = emitted-IsAbove b es h.1 o.1 in
      elim (Bool-cases (bytes_eq e.user b.user)) [
        | inr differs ↦
            let lt = larger_user b e h.0 differs in
            scan_loop-All (λ k. bytes_lt b.user k ≡ true) (e ∷ es)
              (keys (e ∷ es) (lt, larger_users b.user e es lt o.0)) (emitted b.user)
        | inl same ↦ again same rest
      ]
    where
      keys :
          (xs : List Entry)
          → All (λ (x : Entry). bytes_lt b.user x.user ≡ true) xs
          → All (λ (x : Entry). bytes_lt x.user end_key ≡ true → bytes_lt b.user x.user ≡ true) xs
      keys [] k = tt
      keys (x ∷ xs) k = ((λ w. k.0), keys xs k.1)

      again :
          bytes_eq e.user b.user ≡ true
          → All (IsAbove b.user) (scanned (emitted b.user) es).0
          → All (IsAbove b.user) (scanned (emitted b.user) (e ∷ es)).0
      again same rest = elim (Bool-cases (bytes_lt e.user end_key)) [
        | inr past ↦ unfold scan_loop in rw past tt
        | inl within ↦ unfold scan_loop scan_enter scan_entry new_user in rw (within, same) rest
      ]

  scan_entry-IsAscending :
      (s : ScanState) (e : Entry) (next : ScanState → Calls)
      → ((t : ScanState) → IsAscending (next t).0)
      → All (IsAbove e.user) (next (record s { current_emitted = true })).0
      → IsAscending (scan_entry resolve seq s e next).0
  unfolding scan_entry
  scan_entry-IsAscending s e next h above = elim (Bool-cases s.current_emitted) [
    | inl over ↦ simp over (h s)
    | inr first ↦ elim (Bool-cases (leb e.seq seq)) [
      | inr hidden ↦ simp (first, hidden) (h s)
      | inl seen ↦ elim (Bool-cases (e.type == type_value)) [
        | inl value ↦ rw (first, seen, value) (emits (resolve e.value))
        | inr deletion ↦ simp (first, seen, deletion) (h (record s { current_emitted = true }))
      ]
    ]
  ]
    where
      emits :
          (r : Result Bytes)
          → IsAscending (emit e.user r (next (record s { current_emitted = true }))).0
      emits (failed t) = unfold emit in tt
      emits (done value) = unfold emit in (above, h (record s { current_emitted = true }))

  pub scan_loop-IsAscending :
      (es : List Entry) → IsSorted es → (s : ScanState) → IsAscending (scanned s es).0
  unfolding scan_loop
  scan_loop-IsAscending [] o s = tt
  scan_loop-IsAscending (e ∷ es) o s =
      let rest = scan_loop-IsAscending es o.1 in
      elim (Bool-cases (bytes_lt e.user end_key)) [
        | inr past ↦ rw past tt
        | inl within ↦ rw within (
            scan_entry-IsAscending (scan_enter s e) e (λ t. scanned t es) rest
              (subst (λ (t : ScanState). All (IsAbove e.user) (scanned t es).0)
                (sym (entered_emitted s e)) (emitted-IsAbove e es o.0 o.1)))
      ]
