-- ===== src/Db/Scan/Selection.antt =====
-- The runs that `DB::Scan` (src/db.cpp) reads: the files it opens and the seek leave out nothing that a
-- key of the range could show.
use bedrockkv.Prelude.{
  ℕ, ◌≤◌, ◌<◌, ◌≡◌, refl, subst, Bool, true, false, not, inl, inr, Bool-cases, List, [], ◌∷◌, ◌++◌,
  map, arith, Bytes, All, All-append, if◌then◌else◌,
}
use bedrockkv.Prelude.Order.{bytes_lt, bytes_eq_self, eq_of_bytes_eq, bytes_lt_of_le_right}
use bedrockkv.Key.Laws.{entry_less}
use bedrockkv.Db.Compaction.{Entry}
use bedrockkv.Db.Read.{Table}
use bedrockkv.Db.Read.Runs.{IsOther, IsRecent, IsAmong}
use bedrockkv.Db.Read.Newest.{IsLevel, entries, level_entries, below_key, level_above}
use bedrockkv.Db.Scan.{less, seek, in_range, flat}
use bedrockkv.Db.Scan.Choice.{IsNotBefore, IsSorted}

pub newer_first : (x e : Entry) → x.user ≡ e.user → IsNotBefore e x → x.seq ≤ e.seq
unfolding less entry_less
newer_first x e p k = ground (arith, p, k, bytes_eq_self e.user)

pub IsSorted-IsRecent : (es : List Entry) → IsSorted es → IsRecent es
IsSorted-IsRecent [] h = tt
IsSorted-IsRecent (e ∷ es) h = (along es h.0, IsSorted-IsRecent es h.1)
  where
    along :
        (xs : List Entry)
        → All (IsNotBefore e) xs
        → All (λ (x : Entry). x.user ≡ e.user → x.seq ≤ e.seq) xs
    along [] k = tt
    along (x ∷ xs) k = ((λ p. newer_first x e p k.0), along xs k.1)

pub All-weaken :
    {A : Type 0} (P Q : A → Type 0) (xs : List A) → ((x : A) → P x → Q x) → All P xs → All Q xs
All-weaken P Q [] f h = tt
All-weaken P Q (x ∷ xs) f h = (f x h.0, All-weaken P Q xs f h.1)

pub All-split :
    {A : Type 0} (P : A → Type 0) (xs ys : List A) → All P (xs ++ ys) → All P xs × All P ys
All-split P [] ys h = (tt, h)
All-split P (x ∷ xs) ys h = let r = All-split P xs ys h.1 in ((h.0, r.0), r.1)

pub All-map :
    {A B : Type 0} (P : B → Type 0) (f : A → B) (xs : List A)
    → All (λ (x : A). P (f x)) xs
    → All P (map f xs)
All-map P f [] h = tt
All-map P f (x ∷ xs) h = (h.0, All-map P f xs h.1)

pub All-unmap :
    {A B : Type 0} (P : B → Type 0) (f : A → B) (xs : List A)
    → All P (map f xs)
    → All (λ (x : A). P (f x)) xs
All-unmap P f [] h = tt
All-unmap P f (x ∷ xs) h = (h.0, All-unmap P f xs h.1)

pub IsAmong-self : (es : List Entry) → All (λ (x : Entry). IsAmong x es) es
IsAmong-self [] = tt
IsAmong-self (e ∷ es) = (
  inl refl,
  All-weaken (λ x. IsAmong x es) (λ x. IsAmong x (e ∷ es)) es (λ x m. inr m) (IsAmong-self es),
)

pub All-at : (P : Entry → Type 0) (e : Entry) (es : List Entry) → All P es → IsAmong e es → P e
All-at P e [] h m = absurd m
All-at P e (x ∷ xs) h (inl p) = subst P p h.0
All-at P e (x ∷ xs) h (inr m) = All-at P e xs h.1 m

pub seek-All :
    (P : Entry → Type 0) (begin : Bytes) (seq : ℕ) (es : List Entry)
    → All P es
    → All P (seek begin seq es)
unfolding seek
seek-All P begin seq [] h = tt
seek-All P begin seq (e ∷ es) h = elim (Bool-cases (entry_less e.user e.seq begin seq)) [
  | inl before ↦ rw before (seek-All P begin seq es h.1)
  | inr from ↦ rw from h
]

pub seek-IsSorted :
    (begin : Bytes) (seq : ℕ) (es : List Entry) → IsSorted es → IsSorted (seek begin seq es)
unfolding seek
seek-IsSorted begin seq [] h = tt
seek-IsSorted begin seq (e ∷ es) h = elim (Bool-cases (entry_less e.user e.seq begin seq)) [
  | inl before ↦ rw before (seek-IsSorted begin seq es h.1)
  | inr from ↦ rw from h
]

pub in_range-All :
    (P : Table → Type 0) (begin end_key : Bytes) (ts : List Table)
    → All P ts
    → All P (in_range begin end_key ts)
unfolding in_range
in_range-All P begin end_key [] h = tt
in_range-All P begin end_key (t ∷ ts) h =
    let rest = in_range-All P begin end_key ts h.1 in
    elim (Bool-cases (bytes_lt t.largest_user_key begin)) [
      | inl left ↦ rw left rest
      | inr further ↦ elim (Bool-cases (bytes_lt t.smallest_user_key end_key)) [
        | inl within ↦ rw (further, within) (h.0, rest)
        | inr right ↦ rw (further, right) tt
      ]
    ]

module _ (key begin : Bytes) (seq : ℕ) (from_begin : bytes_lt key begin ≡ false) where
  -- A version that a read of the key at `seq` does not look at.
  abbrev pub IsSkipped : Entry → Type 0
  IsSkipped x = x.user ≡ key → seq < x.seq

  pub IsOther-IsSkipped : (x : Entry) → IsOther key x → IsSkipped x
  IsOther-IsSkipped x h p = absurd (ground (arith, h, p, bytes_eq_self key))

  pub passed : (e : Entry) → entry_less e.user e.seq begin seq ≡ true → IsSkipped e
  unfolding less entry_less
  passed e h p = ground (arith, h, p, from_begin, eq_of_bytes_eq e.user begin)

  module _ (P : Entry → Type 0) (skipped : (x : Entry) → IsSkipped x → P x) where
    -- What the seek passes does not matter.
    pub seek-All-back : (es : List Entry) → All P (seek begin seq es) → All P es
    unfolding seek
    seek-All-back [] h = tt
    seek-All-back (e ∷ es) h = elim (Bool-cases (entry_less e.user e.seq begin seq)) [
      | inl before ↦ (
        skipped e (passed e before),
        seek-All-back es (subst (λ b. All P (if b then seek begin seq es else e ∷ es)) before h),
      )
      | inr from ↦ subst (λ b. All P (if b then seek begin seq es else e ∷ es)) from h
    ]

    pub others-All : (es : List Entry) → All (IsOther key) es → All P es
    others-All es h = All-weaken (IsOther key) P es (λ x o. skipped x (IsOther-IsSkipped x o)) h

module _ (contents : Table → List Entry) where
  abbrev pub Holds : (Entry → Type 0) → Table → Type 0
  Holds P t = All P (contents t)

  pub entries-All :
      (P : Entry → Type 0) (ts : List Table) → All (Holds P) ts → All P (entries contents ts)
  entries-All P [] h = tt
  entries-All P (t ∷ ts) h =
      All-append P (contents t) (entries contents ts) (entries-All P ts h.1) h.0

  pub entries-All-back :
      (P : Entry → Type 0) (ts : List Table) → All P (entries contents ts) → All (Holds P) ts
  entries-All-back P [] h = tt
  entries-All-back P (t ∷ ts) h =
      let (here, rest) = All-split P (contents t) (entries contents ts) h in
      (here, entries-All-back P ts rest)

  pub levels-All :
      (P : Entry → Type 0) (begin end_key : Bytes) (levels : List (List Table))
      → All P (level_entries contents levels)
      → All (Holds P) (flat (map (in_range begin end_key) levels))
  levels-All P begin end_key [] h = tt
  levels-All P begin end_key (ts ∷ levels) h =
      let (here, rest) = All-split P (entries contents ts) (level_entries contents levels) h in
      All-append (Holds P) (in_range begin end_key ts) (flat (map (in_range begin end_key) levels))
        (levels-All P begin end_key levels rest)
        (in_range-All (Holds P) begin end_key ts (entries-All-back P ts here))

  module _ (key begin end_key : Bytes) (seq : ℕ) (from_begin : bytes_lt key begin ≡ false)
      (to_end : bytes_lt key end_key ≡ true) (P : Entry → Type 0)
      (skipped : (x : Entry) → (x.user ≡ key → seq < x.seq) → P x) where
    pub others_hold : (es : List Entry) → All (IsOther key) es → All P es
    others_hold es h = others-All key begin seq from_begin P skipped es h

    -- The round at a file of a level: left of the range, right of it with all that follow, or in it.
    pub in_range_round :
        (t : Table) (ts : List Table) (left within : Bool)
        → IsLevel contents (t ∷ ts)
        → bytes_lt t.largest_user_key begin ≡ left
        → bytes_lt t.smallest_user_key end_key ≡ within
        → (All (Holds P) (in_range begin end_key ts) → All (Holds P) ts)
        → All (Holds P) (
            if left
            then in_range begin end_key ts
            else if not within
            then []
            else t ∷ in_range begin end_key ts)
        → All (Holds P) (t ∷ ts)
    in_range_round t ts true within o l w rest h =
        let lt = bytes_lt_of_le_right t.largest_user_key begin key l from_begin in
        (others_hold (contents t) (below_key contents key t (contents t) o.3 lt), rest h)
    in_range_round t ts false false o l w rest h =
        let lt = bytes_lt_of_le_right key end_key t.smallest_user_key to_end w in
        entries-All-back P (t ∷ ts)
          (others_hold (entries contents (t ∷ ts)) (level_above contents key t ts o lt))
    in_range_round t ts false true o l w rest h = (h.0, rest h.1)

    -- The files of a level that the scan leaves out hold nothing of the range.
    pub in_range-All-back :
        (ts : List Table)
        → IsLevel contents ts
        → All (Holds P) (in_range begin end_key ts)
        → All (Holds P) ts
    unfolding in_range
    in_range-All-back [] o h = tt
    in_range-All-back (t ∷ ts) o h =
        in_range_round t ts (bytes_lt t.largest_user_key begin)
          (bytes_lt t.smallest_user_key end_key) o refl refl (in_range-All-back ts o.4) h

    pub levels-All-back :
        (levels : List (List Table))
        → All (IsLevel contents) levels
        → All (Holds P) (flat (map (in_range begin end_key) levels))
        → All P (level_entries contents levels)
    levels-All-back [] o h = tt
    levels-All-back (ts ∷ levels) o h =
        let (here, rest) =
          All-split (Holds P) (in_range begin end_key ts)
            (flat (map (in_range begin end_key) levels)) h in
        All-append P (entries contents ts) (level_entries contents levels)
          (levels-All-back levels o.1 rest) (entries-All P ts (in_range-All-back ts o.0 here))
