-- ===== src/Db/Scan/Choice.antt =====
-- `FindSmallest`, include/bedrockkv/iterator.h: it stands at a head that no other stands before.
use bedrockkv.Prelude.{
  ℕ, zero, suc, ◌+◌, ◌≡◌, refl, subst, true, false, ◌⊎◌, inl, inr, Bool-cases, none, some, List, [],
  ◌∷◌, arith, All,
}
use bedrockkv.Prelude.Order.{
  bytes_eq_self, eq_of_bytes_eq, bytes_lt_asymm, bytes_lt_trans, bytes_lt_total,
}
use bedrockkv.Key.Laws.{entry_less}
use bedrockkv.Db.Compaction.{Entry}
use bedrockkv.Db.Scan.{less, Current, is_smaller, find_smallest}

-- `x` does not stand before `e`.
abbrev pub IsNotBefore : Entry → Entry → Type 0
IsNotBefore e x = less x e ≡ false

abbrev pub IsSorted : List Entry → Type 0
IsSorted [] = Unit
IsSorted (e ∷ es) = All (IsNotBefore e) es × IsSorted es

pub IsNotBefore-trans : (a b c : Entry) → IsNotBefore a b → IsNotBefore b c → IsNotBefore a c
unfolding less entry_less
IsNotBefore-trans a b c h k = ground (
  arith,
  h,
  k,
  eq_of_bytes_eq b.user a.user,
  eq_of_bytes_eq c.user b.user,
  eq_of_bytes_eq c.user a.user,
  bytes_eq_self a.user,
  bytes_lt_total b.user a.user,
  bytes_lt_total c.user b.user,
  bytes_lt_trans a.user b.user c.user,
  bytes_lt_asymm c.user a.user,
)

less_trans : (a b c : Entry) → less a b ≡ true → less b c ≡ true → less a c ≡ true
unfolding less entry_less
less_trans a b c h k = ground (
  arith,
  h,
  k,
  eq_of_bytes_eq a.user b.user,
  eq_of_bytes_eq b.user c.user,
  eq_of_bytes_eq a.user c.user,
  bytes_eq_self a.user,
  bytes_lt_trans a.user b.user c.user,
  bytes_lt_asymm a.user b.user,
)

less_irrefl : (a : Entry) → less a a ≡ false
unfolding less
less_irrefl a = ground (arith, bytes_eq_self a.user)

before-IsNotBefore : (a b c : Entry) → less a b ≡ true → IsNotBefore c a → IsNotBefore c b
before-IsNotBefore a b c h k = elim (Bool-cases (less b c)) [
  | inl lt ↦ absurd (cc (k, less_trans a b c h lt))
  | inr le ↦ le
]

-- The child at a place stands at an entry.
abbrev pub IsAt : ℕ → Entry → List (List Entry) → Type 0
IsAt k x [] = ⊥
IsAt zero x ([] ∷ children) = ⊥
IsAt zero x ((e ∷ es) ∷ children) = e ≡ x
IsAt (suc k) x (c ∷ children) = IsAt k x children

abbrev pub IsHeadNotBefore : Entry → List Entry → Type 0
IsHeadNotBefore x [] = Unit
IsHeadNotBefore x (e ∷ es) = IsNotBefore x e

abbrev pub IsEmpty : List Entry → Type 0
IsEmpty c = c ≡ []

-- What `FindSmallest` finds, from a place and a current iterator on.
abbrev pub IsFound : ℕ → Current → List (List Entry) → Current → Type 0
IsFound i current children none = (current ≡ none) × All IsEmpty children
IsFound i current children (some (j, x)) =
    All (IsHeadNotBefore x) children
    × ((c : ℕ × Entry) → current ≡ some c → IsNotBefore x c.1)
    × ((current ≡ some (j, x)) ⊎ ((k : ℕ) × (j ≡ i + k) × IsAt k x children))

IsFound-after_empty :
    (i : ℕ) (current : Current) (children : List (List Entry)) (r : Current)
    → IsFound (suc i) current children r
    → IsFound i current ([] ∷ children) r
IsFound-after_empty i current children none h = (h.0, (refl, h.1))
IsFound-after_empty i current children (some (j, x)) h = ((tt, h.0), h.1, place h.2)
  where
    place :
        (current ≡ some (j, x)) ⊎ ((k : ℕ) × (j ≡ suc i + k) × IsAt k x children)
        → (current ≡ some (j, x)) ⊎ ((k : ℕ) × (j ≡ i + k) × IsAt k x ([] ∷ children))
    place (inl p) = inl p
    place (inr (k, e, at)) = inr (suc k, omega (arith, e), at)

IsFound-smaller :
    (i : ℕ) (current : Current) (e : Entry) (es : List Entry) (children : List (List Entry))
    (r : Current)
    → is_smaller e current ≡ true
    → IsFound (suc i) (some (i, e)) children r
    → IsFound i current ((e ∷ es) ∷ children) r
unfolding is_smaller
IsFound-smaller i current e es children none s h = absurd (ground (arith, h.0))
IsFound-smaller i current e es children (some (j, x)) s h =
    ((h.1 (i, e) refl, h.0), bound current s, inr (place h.2))
  where
    bound : (o : Current) → is_smaller e o ≡ true → (c : ℕ × Entry) → o ≡ some c → IsNotBefore x c.1
    bound none s c p = absurd (ground (arith, p))
    bound (some d) s c p =
        let q : d ≡ c = ground (arith, p) in
        subst (λ (z : ℕ × Entry). IsNotBefore x z.1) q
          (before-IsNotBefore e d.1 x s (h.1 (i, e) refl))

    place :
        (◌≡◌ {A = Current} (some (i, e)) (some (j, x)))
          ⊎ ((k : ℕ) × (j ≡ suc i + k) × IsAt k x children)
        → (k : ℕ) × (j ≡ i + k) × IsAt k x ((e ∷ es) ∷ children)
    place (inl p) = (0, ground (arith, p), ground (arith, p))
    place (inr (k, q, at)) = (suc k, omega (arith, q), at)

IsFound-not_smaller :
    (i : ℕ) (current : Current) (e : Entry) (es : List Entry) (children : List (List Entry))
    (r : Current)
    → is_smaller e current ≡ false
    → IsFound (suc i) current children r
    → IsFound i current ((e ∷ es) ∷ children) r
unfolding is_smaller
IsFound-not_smaller i none e es children r s h = absurd (ground (arith, s))
IsFound-not_smaller i (some c) e es children none s h = absurd (ground (arith, h.0))
IsFound-not_smaller i (some c) e es children (some (j, x)) s h =
    ((IsNotBefore-trans x c.1 e (h.1 c refl) s, h.0), h.1, place h.2)
  where
    place :
        (some c ≡ some (j, x)) ⊎ ((k : ℕ) × (j ≡ suc i + k) × IsAt k x children)
        → (some c ≡ some (j, x)) ⊎ ((k : ℕ) × (j ≡ i + k) × IsAt k x ((e ∷ es) ∷ children))
    place (inl p) = inl p
    place (inr (k, q, at)) = inr (suc k, omega (arith, q), at)

pub find_smallest-IsFound :
    (i : ℕ) (current : Current) (children : List (List Entry))
    → IsFound i current children (find_smallest i current children)
unfolding find_smallest
find_smallest-IsFound i none [] = (refl, tt)
find_smallest-IsFound i (some (j, x)) [] = (tt, here, inl refl)
  where
    here : (c : ℕ × Entry) → ◌≡◌ {A = Current} (some (j, x)) (some c) → IsNotBefore x c.1
    here c p =
        let q : (j, x) ≡ c = ground (arith, p) in
        subst (λ (z : ℕ × Entry). IsNotBefore x z.1) q (less_irrefl x)
find_smallest-IsFound i current ([] ∷ children) =
    IsFound-after_empty i current children (find_smallest (suc i) current children)
      (find_smallest-IsFound (suc i) current children)
find_smallest-IsFound i current ((e ∷ es) ∷ children) =
    let smaller = find_smallest-IsFound (suc i) (some (i, e)) children in
    let other = find_smallest-IsFound (suc i) current children in
    elim (Bool-cases (is_smaller e current)) [
      | inl less ↦ rw less (IsFound-smaller i current e es children _ less smaller)
      | inr not_less ↦ rw not_less (IsFound-not_smaller i current e es children _ not_less other)
    ]
