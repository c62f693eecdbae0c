-- ===== src/Prelude/Text.antt =====
-- Text as bytes: literals, and decimal numbers as `std::to_string` writes them.
use Prim.Native.Nat.{ℕ, zero, suc, ◌+◌, ◌-◌, ◌*◌, ◌/◌, ◌%◌, ◌<◌, ◌≤◌}
use Prim.Native.Char.{code}
use Prim.Native.String.{String}
use mathlib.Core.Path.{◌≡◌, refl}
use mathlib.Core.Bool.{Bool, true, false, ◌&&◌}
use mathlib.Core.List.{List, [], ◌∷◌, ◌++◌}
use native.Mathlib.Omega.{arith}
use bedrockkv.Prelude.Tests.{ltb, leb, Bool-cases}
use mathlib.Core.Logic.{inl, inr}
use bedrockkv.Prelude.Lists.{length, length-append}

-- The bytes of an ASCII literal.
abbrev pub codes : String → List ℕ
codes String.[] = []
codes (String.◌∷◌ c s) = code c ∷ codes s

unfoldable pub is_digit : ℕ → Bool
is_digit c = leb b'0' c && leb c b'9'

unfoldable pub all_digits : List ℕ → Bool
unfolding is_digit
all_digits [] = true
all_digits (c ∷ cs) = is_digit c && all_digits cs

-- The number that a row of digits stands for, read from the left.
unfoldable pub digits_value : ℕ → List ℕ → ℕ
digits_value acc [] = acc
digits_value acc (c ∷ cs) = digits_value (acc * 10 + (c - b'0')) cs

-- `fuel` is at least the number of digits.
unfoldable pub decimal_loop : ℕ → ℕ → List ℕ
decimal_loop zero n = []
decimal_loop (suc fuel) n = elim (ltb n 10) [
  | true ↦ (b'0' + n) ∷ []
  | false ↦ decimal_loop fuel (n / 10) ++ (b'0' + n % 10) ∷ []
]

-- `std::to_string(n)`
unfoldable pub decimal : ℕ → List ℕ
unfolding decimal_loop
decimal n = decimal_loop (suc n) n

pub digits_value-append :
    (acc : ℕ) (xs ys : List ℕ) → digits_value acc (xs ++ ys) ≡ digits_value (digits_value acc xs) ys
unfolding digits_value
digits_value-append acc [] ys = refl
digits_value-append acc (x ∷ xs) ys = digits_value-append (acc * 10 + (x - b'0')) xs ys

digits_value-snoc :
    (acc : ℕ) (xs : List ℕ) (d : ℕ)
    → digits_value acc (xs ++ d ∷ []) ≡ digits_value acc xs * 10 + (d - b'0')
unfolding digits_value
digits_value-snoc acc xs d = digits_value-append acc xs (d ∷ [])

pub all_digits-append :
    (xs ys : List ℕ) → all_digits xs ≡ true → all_digits ys ≡ true → all_digits (xs ++ ys) ≡ true
unfolding all_digits
all_digits-append [] ys h k = k
all_digits-append (x ∷ xs) ys h k = ground (arith, all_digits-append xs ys)

decimal_loop-value : (fuel n : ℕ) → n < fuel → digits_value 0 (decimal_loop fuel n) ≡ n
unfolding decimal_loop
decimal_loop-value zero n h = absurd (omega arith)
decimal_loop-value (suc fuel) n h = elim (Bool-cases (ltb n 10)) [
  | inl small ↦ rw (small, decimal_loop) (unfold digits_value in omega arith)
  | inr large ↦
      let ih = decimal_loop-value fuel (n / 10) (ground arith) in
      rw (large, decimal_loop)
        (omega (arith, digits_value-snoc 0 (decimal_loop fuel (n / 10)) (b'0' + n % 10), ih))
]

decimal_loop-all_digits : (fuel n : ℕ) → all_digits (decimal_loop fuel n) ≡ true
unfolding decimal_loop
decimal_loop-all_digits zero n = unfold all_digits in refl
decimal_loop-all_digits (suc fuel) n = elim (Bool-cases (ltb n 10)) [
  | inl small ↦ rw (small, decimal_loop) (unfold all_digits in ground arith)
  | inr large ↦
      rw (large, decimal_loop)
        (all_digits-append (decimal_loop fuel (n / 10)) ((b'0' + n % 10) ∷ [])
          (decimal_loop-all_digits fuel (n / 10)) (unfold all_digits in ground arith))
]

-- Reading a printed number gives it back.
pub digits_value-decimal : (n : ℕ) → digits_value 0 (decimal n) ≡ n
unfolding decimal
digits_value-decimal n = decimal_loop-value (suc n) n (omega arith)

pub all_digits-decimal : (n : ℕ) → all_digits (decimal n) ≡ true
unfolding decimal
all_digits-decimal n = decimal_loop-all_digits (suc n) n

pub length-decimal : (n : ℕ) → 1 ≤ length (decimal n)
unfolding decimal
length-decimal n = elim (Bool-cases (ltb n 10)) [
  | inl small ↦ rw (small, decimal_loop) (omega arith)
  | inr large ↦
      rw (large, decimal_loop)
        (omega (arith, length-append (decimal_loop n (n / 10)) ((b'0' + n % 10) ∷ [])))
]
