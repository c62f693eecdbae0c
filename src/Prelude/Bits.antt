-- ===== src/Prelude/Bits.antt =====
-- Laws of the bit operations at every width: one equation for the lowest digit, then inductions.
use Prim.Native.Nat.{
  ℕ, zero, suc, ◌+◌, ◌*◌, ◌/◌, ◌%◌, ◌^◌, ◌≤◌, ◌<◌, min, max, digits, bitwise, differ, bit_and,
  bit_or, bit_xor, bit_and-bitwise, bit_or-bitwise, bit_xor-bitwise,
}
use mathlib.Core.Path.{◌≡◌, refl, ap, ap₂, sym, ◌∙◌}
use mathlib.Core.Bool.{Bool, true, ◌&&◌}
use native.Mathlib.Nat.{pow-suc, pow-succ', div-div-eq-div-mul, le_refl}
use native.Mathlib.Omega.{arith}

-- Every value below a bound, by evaluation.
unfoldable pub all_below : ℕ → (ℕ → Bool) → Bool
all_below zero test = true
all_below (suc bound) test = all_below bound test && test bound

pub all_below_sound :
    (test : ℕ → Bool) (bound v : ℕ) → v < bound → all_below bound test ≡ true → test v ≡ true
unfolding all_below
all_below_sound test zero v below all = absurd (omega arith)
all_below_sound test (suc bound) v below all = ground (arith, all_below_sound test bound v)

-- Any two counts of rounds that reach past the first number give one result.
rounds_agree :
    (zeros : ℕ → ℕ) (op : ℕ → ℕ → ℕ) (x y i j : ℕ)
    → x ≤ i
    → x ≤ j
    → digits zeros op i x y ≡ digits zeros op j x y
rounds_agree zeros op zero y zero zero hi hj = refl
rounds_agree zeros op zero y zero (suc j) hi hj = refl
rounds_agree zeros op zero y (suc i) zero hi hj = refl
rounds_agree zeros op zero y (suc i) (suc j) hi hj = refl
rounds_agree zeros op (suc x) y zero j hi hj = absurd (omega arith)
rounds_agree zeros op (suc x) y (suc i) zero hi hj = absurd (omega arith)
rounds_agree zeros op (suc x) y (suc i) (suc j) hi hj =
    rw (rounds_agree zeros op (suc x / 2) (y / 2) i j (omega arith) (omega arith))

bitwise-suc :
    (zeros : ℕ → ℕ) (op : ℕ → ℕ → ℕ) (x y : ℕ)
    → bitwise zeros op (suc x) y ≡ bitwise zeros op (suc x / 2) (y / 2) * 2 + op (suc x % 2) (y % 2)
bitwise-suc zeros op x y =
    let half : ℕ = suc x / 2 in
    omega (arith, rounds_agree zeros op half (y / 2) x half (omega arith) (le_refl half))

pub bit_and_step : (x y : ℕ) → bit_and x y ≡ bit_and (x / 2) (y / 2) * 2 + min (x % 2) (y % 2)
bit_and_step zero y = omega (arith, bit_and-bitwise 0 y, bit_and-bitwise 0 (y / 2))
bit_and_step (suc x) y = omega (
  arith,
  bit_and-bitwise (suc x) y,
  bit_and-bitwise (suc x / 2) (y / 2),
  bitwise-suc (λ v. 0) min x y,
)

pub bit_or_step : (x y : ℕ) → bit_or x y ≡ bit_or (x / 2) (y / 2) * 2 + max (x % 2) (y % 2)
bit_or_step zero y = omega (arith, bit_or-bitwise 0 y, bit_or-bitwise 0 (y / 2))
bit_or_step (suc x) y = omega (
  arith,
  bit_or-bitwise (suc x) y,
  bit_or-bitwise (suc x / 2) (y / 2),
  bitwise-suc (λ v. v) max x y,
)

differ_digits : (x y : ℕ) → x < 2 → y < 2 → differ x y ≡ (x + y) % 2
differ_digits zero y p q = omega arith
differ_digits (suc zero) zero p q = refl
differ_digits (suc zero) (suc zero) p q = refl
differ_digits (suc zero) (suc (suc y)) p q = absurd (omega arith)
differ_digits (suc (suc x)) y p q = absurd (omega arith)

pub bit_xor_step : (a b : ℕ) → bit_xor a b ≡ bit_xor (a / 2) (b / 2) * 2 + (a % 2 + b % 2) % 2
bit_xor_step zero b = simp bit_xor-bitwise (omega arith)
bit_xor_step (suc a) b = omega (
  arith,
  bit_xor-bitwise (suc a) b,
  bit_xor-bitwise (suc a / 2) (b / 2),
  bitwise-suc (λ y. y) differ a b,
  differ_digits (suc a % 2) (b % 2) (omega arith) (omega arith),
)

-- An exclusive or of two `k`-bit numbers has `k` bits.
pub bit_xor-lt : (k a b : ℕ) → a < 2 ^ k → b < 2 ^ k → bit_xor a b < 2 ^ k
bit_xor-lt zero zero zero p q = omega (arith, bit_xor-bitwise 0 0)
bit_xor-lt zero (suc a) b p q = absurd (omega arith)
bit_xor-lt zero zero (suc b) p q = absurd (omega arith)
bit_xor-lt (suc k) a b p q = omega (
  arith,
  pow-suc 2 k,
  bit_xor_step a b,
  bit_xor-lt k (a / 2) (b / 2) (omega (arith, pow-suc 2 k)) (omega (arith, pow-suc 2 k)),
)

-- The same mask twice changes nothing.
pub bit_xor-bit_xor : (k a b : ℕ) → a < 2 ^ k → b < 2 ^ k → bit_xor (bit_xor a b) b ≡ a
bit_xor-bit_xor zero zero zero p q = refl
bit_xor-bit_xor zero (suc a) b p q = absurd (omega arith)
bit_xor-bit_xor zero zero (suc b) p q = absurd (omega arith)
bit_xor-bit_xor (suc k) a b p q =
    let halves : bit_xor a b / 2 ≡ bit_xor (a / 2) (b / 2) = omega (arith, bit_xor_step a b) in
    let below : bit_xor (bit_xor (a / 2) (b / 2)) (b / 2) ≡ a / 2 =
      bit_xor-bit_xor k (a / 2) (b / 2) (omega (arith, pow-suc 2 k)) (omega (arith, pow-suc 2 k)) in
    omega (
      arith,
      bit_xor_step a b,
      bit_xor_step (bit_xor a b) b,
      ap (λ (t : ℕ). bit_xor t (b / 2)) halves,
      below,
    )

bit_or-zero : (k a : ℕ) → a < 2 ^ k → bit_or a 0 ≡ a
bit_or-zero zero a p = let e : a ≡ 0 = omega arith in rw e refl
bit_or-zero (suc k) a p =
    omega (arith, bit_or_step a 0, bit_or-zero k (a / 2) (omega (arith, pow-suc 2 k)))

zero-bit_or : (a : ℕ) → bit_or 0 a ≡ a
zero-bit_or a = bit_or-bitwise 0 a

shifted : (q k : ℕ) → q * 2 ^ suc k ≡ 2 * (q * 2 ^ k)
shifted q k = omega (arith, ap (λ (t : ℕ). q * t) (pow-suc 2 k))

-- `low | (high << k)` is a sum when `low` fits in `k` bits.
pub bit_or_low_high : (k lo hi : ℕ) → lo < 2 ^ k → bit_or lo (hi * 2 ^ k) ≡ lo + hi * 2 ^ k
bit_or_low_high zero lo hi p =
    let e : lo ≡ 0 = omega arith in rw e (omega (arith, zero-bit_or (hi * 2 ^ 0)))
bit_or_low_high (suc k) lo hi p =
    let half : hi * 2 ^ suc k / 2 ≡ hi * 2 ^ k = omega (arith, shifted hi k) in
    omega (
      arith,
      bit_or_step lo (hi * 2 ^ suc k),
      ap (λ (t : ℕ). bit_or (lo / 2) t) half,
      shifted hi k,
      bit_or_low_high k (lo / 2) hi (omega (arith, pow-suc 2 k)),
    )

-- `(high << k) | low` likewise.
pub bit_or_high_low :
    (k hi lo m : ℕ) → lo < 2 ^ k → hi < 2 ^ m → bit_or (hi * 2 ^ k) lo ≡ hi * 2 ^ k + lo
bit_or_high_low zero hi lo m p q =
    let e : lo ≡ 0 = omega arith in
    let f : hi * 2 ^ 0 ≡ hi = omega arith in rw (e, f) (omega (arith, bit_or-zero m hi q))
bit_or_high_low (suc k) hi lo m p q =
    let half : hi * 2 ^ suc k / 2 ≡ hi * 2 ^ k = omega (arith, shifted hi k) in
    omega (
      arith,
      bit_or_step (hi * 2 ^ suc k) lo,
      ap (λ (t : ℕ). bit_or t (lo / 2)) half,
      shifted hi k,
      bit_or_high_low k hi (lo / 2) m (omega (arith, pow-suc 2 k)) q,
    )

-- A bit that is set stays set under `|`: a mask that meets `x | y` nowhere meets neither.
pub bit_or-disjoint :
    (k x y m : ℕ) → m < 2 ^ k → bit_and m (bit_or x y) ≡ 0 → (bit_and m x ≡ 0) × (bit_and m y ≡ 0)
bit_or-disjoint zero x y m p h =
    let e : m ≡ 0 = omega arith in rw e (bit_and-bitwise 0 x, bit_and-bitwise 0 y)
bit_or-disjoint (suc k) x y m p h =
    let half : bit_or x y / 2 ≡ bit_or (x / 2) (y / 2) = omega (arith, bit_or_step x y) in
    let (l, r) =
      bit_or-disjoint k (x / 2) (y / 2) (m / 2) (omega (arith, pow-suc 2 k))
        (omega (arith, bit_and_step m (bit_or x y), ap (λ (t : ℕ). bit_and (m / 2) t) half)) in
    (
      omega (arith, l, bit_and_step m x, bit_and_step m (bit_or x y), bit_or_step x y),
      omega (arith, r, bit_and_step m y, bit_and_step m (bit_or x y), bit_or_step x y),
    )

-- A number that is not 0 meets itself.
pub bit_and_self : (k m : ℕ) → m < 2 ^ k → bit_and m m ≡ m
bit_and_self zero m p = let e : m ≡ 0 = omega arith in rw e refl
bit_and_self (suc k) m p =
    omega (arith, bit_and_step m m, bit_and_self k (m / 2) (omega (arith, pow-suc 2 k)))

lt-two-pow : (a : ℕ) → a < 2 ^ a
lt-two-pow zero = omega arith
lt-two-pow (suc a) = omega (arith, pow-suc 2 a, lt-two-pow a)

bit_and-zero_width : (k a : ℕ) → a < 2 ^ k → bit_and a 0 ≡ 0
bit_and-zero_width zero a p = let e : a ≡ 0 = omega arith in rw e refl
bit_and-zero_width (suc k) a p =
    omega (arith, bit_and_step a 0, bit_and-zero_width k (a / 2) (omega (arith, pow-suc 2 k)))

-- The masks of 1 to 8 ones are remainders, each from the one before.
pub bit_and-1 : (a : ℕ) → bit_and a 1 ≡ a % 2
bit_and-1 a =
    omega (arith, bit_and_step a 1, bit_and-zero_width (a / 2) (a / 2) (lt-two-pow (a / 2)))

bit_and-3 : (a : ℕ) → bit_and a 3 ≡ a % 4
bit_and-3 a = omega (arith, bit_and_step a 3, bit_and-1 (a / 2))

bit_and-7 : (a : ℕ) → bit_and a 7 ≡ a % 8
bit_and-7 a = omega (arith, bit_and_step a 7, bit_and-3 (a / 2))

bit_and-15 : (a : ℕ) → bit_and a 15 ≡ a % 16
bit_and-15 a = omega (arith, bit_and_step a 15, bit_and-7 (a / 2))

bit_and-31 : (a : ℕ) → bit_and a 31 ≡ a % 32
bit_and-31 a = omega (arith, bit_and_step a 31, bit_and-15 (a / 2))

bit_and-63 : (a : ℕ) → bit_and a 63 ≡ a % 64
bit_and-63 a = omega (arith, bit_and_step a 63, bit_and-31 (a / 2))

bit_and-127 : (a : ℕ) → bit_and a 127 ≡ a % 128
bit_and-127 a = omega (arith, bit_and_step a 127, bit_and-63 (a / 2))

pub bit_and-255 : (a : ℕ) → bit_and a 255 ≡ a % 256
bit_and-255 a = omega (arith, bit_and_step a 255, bit_and-127 (a / 2))

pub bit_xor-div : (k a b : ℕ) → bit_xor a b / 2 ^ k ≡ bit_xor (a / 2 ^ k) (b / 2 ^ k)
bit_xor-div zero a b =
    let ea : a / 2 ^ 0 ≡ a = omega arith in
    let eb : b / 2 ^ 0 ≡ b = omega arith in rw (ea, eb) (omega arith)
bit_xor-div (suc k) a b =
    let half : bit_xor a b / 2 ≡ bit_xor (a / 2) (b / 2) = omega (arith, bit_xor_step a b) in
    let split =
      λ (x : ℕ). (div-div-eq-div-mul x 2 (2 ^ k) ∙ ap (λ (t : ℕ). x / t) (sym (pow-succ' 2 k))) in
    sym (split (bit_xor a b))
    ∙ ap (λ (t : ℕ). t / 2 ^ k) half
    ∙ bit_xor-div k (a / 2) (b / 2)
    ∙ ap₂ bit_xor (split a) (split b)

xor_mod1 : (a b : ℕ) → bit_xor a b % 2 ≡ bit_xor (a % 2) (b % 2)
xor_mod1 a b =
    let ea : a % 2 / 2 ≡ 0 = omega arith in
    let eb : b % 2 / 2 ≡ 0 = omega arith in
    omega (arith, bit_xor_step a b, bit_xor_step (a % 2) (b % 2), ap₂ bit_xor ea eb)

xor_mod2 : (a b : ℕ) → bit_xor a b % 4 ≡ bit_xor (a % 4) (b % 4)
xor_mod2 a b =
    let ea : a % 4 / 2 ≡ a / 2 % 2 = omega arith in
    let eb : b % 4 / 2 ≡ b / 2 % 2 = omega arith in
    omega (
      arith,
      bit_xor_step a b,
      bit_xor_step (a % 4) (b % 4),
      ap₂ bit_xor ea eb,
      xor_mod1 (a / 2) (b / 2),
    )

xor_mod3 : (a b : ℕ) → bit_xor a b % 8 ≡ bit_xor (a % 8) (b % 8)
xor_mod3 a b =
    let ea : a % 8 / 2 ≡ a / 2 % 4 = omega arith in
    let eb : b % 8 / 2 ≡ b / 2 % 4 = omega arith in
    omega (
      arith,
      bit_xor_step a b,
      bit_xor_step (a % 8) (b % 8),
      ap₂ bit_xor ea eb,
      xor_mod2 (a / 2) (b / 2),
    )

xor_mod4 : (a b : ℕ) → bit_xor a b % 16 ≡ bit_xor (a % 16) (b % 16)
xor_mod4 a b =
    let ea : a % 16 / 2 ≡ a / 2 % 8 = omega arith in
    let eb : b % 16 / 2 ≡ b / 2 % 8 = omega arith in
    omega (
      arith,
      bit_xor_step a b,
      bit_xor_step (a % 16) (b % 16),
      ap₂ bit_xor ea eb,
      xor_mod3 (a / 2) (b / 2),
    )

xor_mod5 : (a b : ℕ) → bit_xor a b % 32 ≡ bit_xor (a % 32) (b % 32)
xor_mod5 a b =
    let ea : a % 32 / 2 ≡ a / 2 % 16 = omega arith in
    let eb : b % 32 / 2 ≡ b / 2 % 16 = omega arith in
    omega (
      arith,
      bit_xor_step a b,
      bit_xor_step (a % 32) (b % 32),
      ap₂ bit_xor ea eb,
      xor_mod4 (a / 2) (b / 2),
    )

xor_mod6 : (a b : ℕ) → bit_xor a b % 64 ≡ bit_xor (a % 64) (b % 64)
xor_mod6 a b =
    let ea : a % 64 / 2 ≡ a / 2 % 32 = omega arith in
    let eb : b % 64 / 2 ≡ b / 2 % 32 = omega arith in
    omega (
      arith,
      bit_xor_step a b,
      bit_xor_step (a % 64) (b % 64),
      ap₂ bit_xor ea eb,
      xor_mod5 (a / 2) (b / 2),
    )

xor_mod7 : (a b : ℕ) → bit_xor a b % 128 ≡ bit_xor (a % 128) (b % 128)
xor_mod7 a b =
    let ea : a % 128 / 2 ≡ a / 2 % 64 = omega arith in
    let eb : b % 128 / 2 ≡ b / 2 % 64 = omega arith in
    omega (
      arith,
      bit_xor_step a b,
      bit_xor_step (a % 128) (b % 128),
      ap₂ bit_xor ea eb,
      xor_mod6 (a / 2) (b / 2),
    )

pub bit_xor-mod_byte : (a b : ℕ) → bit_xor a b % 256 ≡ bit_xor (a % 256) (b % 256)
bit_xor-mod_byte a b =
    let ea : a % 256 / 2 ≡ a / 2 % 128 = omega arith in
    let eb : b % 256 / 2 ≡ b / 2 % 128 = omega arith in
    omega (
      arith,
      bit_xor_step a b,
      bit_xor_step (a % 256) (b % 256),
      ap₂ bit_xor ea eb,
      xor_mod7 (a / 2) (b / 2),
    )

pub bit_xor-zero : (k a : ℕ) → a < 2 ^ k → bit_xor a 0 ≡ a
bit_xor-zero zero a p = let e : a ≡ 0 = omega arith in rw e refl
bit_xor-zero (suc k) a p =
    omega (arith, bit_xor_step a 0, bit_xor-zero k (a / 2) (omega (arith, pow-suc 2 k)))

-- An exclusive or with a fixed number takes different numbers to different numbers.
pub bit_xor-inj :
    (k a b c : ℕ) → a < 2 ^ k → b < 2 ^ k → c < 2 ^ k → bit_xor a c ≡ bit_xor b c → a ≡ b
bit_xor-inj k a b c p q r h =
    sym (bit_xor-bit_xor k a c p r) ∙ ap (λ (t : ℕ). bit_xor t c) h ∙ bit_xor-bit_xor k b c q r

pub bit_xor_comm : (k a b : ℕ) → a < 2 ^ k → b < 2 ^ k → bit_xor a b ≡ bit_xor b a
bit_xor_comm zero a b p q =
    let ea : a ≡ 0 = omega arith in let eb : b ≡ 0 = omega arith in rw (ea, eb) refl
bit_xor_comm (suc k) a b p q = omega (
  arith,
  bit_xor_step a b,
  bit_xor_step b a,
  bit_xor_comm k (a / 2) (b / 2) (omega (arith, pow-suc 2 k)) (omega (arith, pow-suc 2 k)),
)

pub bit_xor-inj_right :
    (k a b c : ℕ) → a < 2 ^ k → b < 2 ^ k → c < 2 ^ k → bit_xor c a ≡ bit_xor c b → a ≡ b
bit_xor-inj_right k a b c p q r h =
    bit_xor-inj k a b c p q r (bit_xor_comm k a c p r ∙ h ∙ bit_xor_comm k c b r q)
