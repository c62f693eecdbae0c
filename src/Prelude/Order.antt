-- ===== src/Prelude/Order.antt =====
-- The order of byte strings: `std::string_view::compare`, byte by byte, a proper prefix first.
use Prim.Native.Nat.{ℕ, compare, Ordering}
use mathlib.Core.Path.{◌≡◌, refl}
use mathlib.Core.Bool.{Bool, true, false}
use mathlib.Core.List.{List, [], ◌∷◌}
use native.Mathlib.Omega.{arith}

unfoldable pub bytes_lt : List ℕ → List ℕ → Bool
bytes_lt [] [] = false
bytes_lt [] (b ∷ bs) = true
bytes_lt (a ∷ r) [] = false
bytes_lt (a ∷ r) (b ∷ bs) = elim (compare a b) [
  | Ordering.lt ↦ true
  | Ordering.eq ↦ bytes_lt r bs
  | Ordering.gt ↦ false
]

unfoldable pub bytes_eq : List ℕ → List ℕ → Bool
bytes_eq [] [] = true
bytes_eq [] (b ∷ bs) = false
bytes_eq (a ∷ r) [] = false
bytes_eq (a ∷ r) (b ∷ bs) = elim (compare a b) [ Ordering.eq ↦ bytes_eq r bs | _ ↦ false ]

pub bytes_eq_self : (a : List ℕ) → bytes_eq a a ≡ true
unfolding bytes_eq
bytes_eq_self [] = refl
bytes_eq_self (a ∷ r) = ground (arith, bytes_eq_self r)

pub eq_of_bytes_eq : (a b : List ℕ) → bytes_eq a b ≡ true → a ≡ b
unfolding bytes_eq
eq_of_bytes_eq [] [] h = refl
eq_of_bytes_eq [] (b ∷ bs) h = cc
eq_of_bytes_eq (a ∷ r) [] h = cc
eq_of_bytes_eq (a ∷ r) (b ∷ bs) h = ground (arith, eq_of_bytes_eq r bs)

pub bytes_lt_irrefl : (a : List ℕ) → bytes_lt a a ≡ false
unfolding bytes_lt
bytes_lt_irrefl [] = refl
bytes_lt_irrefl (a ∷ r) = ground (arith, bytes_lt_irrefl r)

pub bytes_lt_trans :
    (a b c : List ℕ) → bytes_lt a b ≡ true → bytes_lt b c ≡ true → bytes_lt a c ≡ true
unfolding bytes_lt
bytes_lt_trans [] [] c h k = k
bytes_lt_trans [] (b ∷ bs) [] h k = k
bytes_lt_trans [] (b ∷ bs) (c ∷ cs) h k = refl
bytes_lt_trans (a ∷ r) [] c h k = cc
bytes_lt_trans (a ∷ r) (b ∷ bs) [] h k = k
bytes_lt_trans (a ∷ r) (b ∷ bs) (c ∷ cs) h k = ground (arith, bytes_lt_trans r bs cs)

pub bytes_lt_total :
    (a b : List ℕ) → bytes_lt a b ≡ false → bytes_eq a b ≡ false → bytes_lt b a ≡ true
unfolding bytes_lt bytes_eq
bytes_lt_total [] [] h k = cc
bytes_lt_total [] (b ∷ bs) h k = cc
bytes_lt_total (a ∷ r) [] h k = refl
bytes_lt_total (a ∷ r) (b ∷ bs) h k = ground (arith, bytes_lt_total r bs)

pub bytes_lt_asymm : (a b : List ℕ) → bytes_lt a b ≡ true → bytes_lt b a ≡ false
unfolding bytes_lt
bytes_lt_asymm [] [] h = refl
bytes_lt_asymm [] (b ∷ bs) h = refl
bytes_lt_asymm (a ∷ r) [] h = cc
bytes_lt_asymm (a ∷ r) (b ∷ bs) h = ground (arith, bytes_lt_asymm r bs)

pub bytes_eq-lt : (a b : List ℕ) → bytes_lt a b ≡ true → bytes_eq a b ≡ false
unfolding bytes_lt bytes_eq
bytes_eq-lt [] [] h = cc
bytes_eq-lt [] (b ∷ bs) h = refl
bytes_eq-lt (a ∷ r) [] h = refl
bytes_eq-lt (a ∷ r) (b ∷ bs) h = ground (arith, bytes_eq-lt r bs)

pub ruleset bytes_laws = (bytes_eq_self, bytes_lt_irrefl)

-- Chains with one strict step.
pub bytes_lt_of_le_right :
    (a b c : List ℕ) → bytes_lt a b ≡ true → bytes_lt c b ≡ false → bytes_lt a c ≡ true
bytes_lt_of_le_right a b c lt le =
    ground (arith, lt, le, bytes_lt_total c b, eq_of_bytes_eq c b, bytes_lt_trans a b c)

pub bytes_lt_of_le_left :
    (a b c : List ℕ) → bytes_lt b a ≡ false → bytes_lt b c ≡ true → bytes_lt a c ≡ true
bytes_lt_of_le_left a b c le lt =
    ground (arith, lt, le, bytes_lt_total b a, eq_of_bytes_eq b a, bytes_lt_trans a b c)
