-- ===== src/Bloom/Membership.antt =====
-- A key that went into a filter is never denied.
use bedrockkv.Prelude.{
  ℕ, zero, suc, ◌+◌, ◌-◌, ◌*◌, ◌/◌, ◌%◌, ◌^◌, ◌≤◌, ◌<◌, ◌≡◌, refl, ap, ◌∙◌, true, List, All, [],
  ◌∷◌, ◌++◌, arith, Bytes, length, replicate, byte_at, length-append, length-replicate,
}
use Prim.Native.Nat.{bit_and, bit_or}
use native.Mathlib.Nat.{pow-suc, mod-lt}
use bedrockkv.Prelude.Bits.{bit_and_step, bit_or_step, bit_and_self}
use bedrockkv.Bloom.{
  hash, rotated, or_at, set_bit, add_probes, add_keys, probe_count, array_bytes, build_filter,
  match_probes, key_may_match,
}

below_pow : (n : ℕ) → n < 2 ^ n
below_pow zero = omega arith
below_pow (suc n) = omega (arith, pow-suc 2 n, below_pow n)

-- A bit that is set in a part is set in the disjunction.
and_or_le :
    (k x y m : ℕ)
    → x < 2 ^ k
    → y < 2 ^ k
    → m < 2 ^ k
    → (bit_and x m ≤ bit_and (bit_or x y) m) × (bit_and y m ≤ bit_and (bit_or x y) m)
and_or_le zero x y m hx hy hm =
    let a : x ≡ 0 = omega arith in
    let b : y ≡ 0 = omega arith in let c : m ≡ 0 = omega arith in rw (a, b, c) (omega arith)
and_or_le (suc k) x y m hx hy hm =
    let half : bit_or x y / 2 ≡ bit_or (x / 2) (y / 2) = omega (arith, bit_or_step x y) in
    let ih =
      and_or_le k (x / 2) (y / 2) (m / 2) (omega (arith, pow-suc 2 k)) (omega (arith, pow-suc 2 k))
        (omega (arith, pow-suc 2 k)) in
    let more : bit_and (bit_or x y / 2) (m / 2) ≡ bit_and (bit_or (x / 2) (y / 2)) (m / 2) =
      ap (λ (t : ℕ). bit_and t (m / 2)) half in
    (
      omega (arith, bit_and_step x m, bit_and_step (bit_or x y) m, bit_or_step x y, more, ih.0),
      omega (arith, bit_and_step y m, bit_and_step (bit_or x y) m, bit_or_step x y, more, ih.1),
    )

pow_grows : (a b : ℕ) → 2 ^ a ≤ 2 ^ (a + b)
pow_grows a zero = omega (arith, ap (λ (n : ℕ). 2 ^ n) {x = a + 0} {y = a} (omega arith))
pow_grows a (suc b) =
    let e : a + suc b ≡ suc (a + b) = omega arith in
    omega (arith, ap (λ (n : ℕ). 2 ^ n) e, pow-suc 2 (a + b), pow_grows a b)

pow_part : (a b c : ℕ) → c ≡ a + b → 2 ^ a ≤ 2 ^ c
pow_part a b c e = omega (arith, pow_grows a b, ap (λ (n : ℕ). 2 ^ n) e)

wide : (x y m : ℕ) → (bit_and x m ≤ bit_and (bit_or x y) m) × (bit_and y m ≤ bit_and (bit_or x y) m)
wide x y m =
    let a = pow_part x (y + m) (x + y + m) (omega arith) in
    let b = pow_part y (x + m) (x + y + m) (omega arith) in
    let c = pow_part m (x + y) (x + y + m) (omega arith) in
    and_or_le (x + y + m) x y m (omega (arith, below_pow x, a)) (omega (arith, below_pow y, b))
      (omega (arith, below_pow m, c))

-- The bit of a probe is set.
abbrev pub Marked : Bytes → ℕ → Type 0
Marked f pos = 1 ≤ bit_and (byte_at f (pos / 8)) (2 ^ (pos % 8))

or_at-le :
    (i j mask m : ℕ) (f : Bytes) → bit_and (byte_at f j) m ≤ bit_and (byte_at (or_at i mask f) j) m
unfolding or_at byte_at
or_at-le i j mask m [] = omega arith
or_at-le zero zero mask m (b ∷ f) = (wide b mask m).0
or_at-le zero (suc j) mask m (b ∷ f) = omega arith
or_at-le (suc i) zero mask m (b ∷ f) = omega arith
or_at-le (suc i) (suc j) mask m (b ∷ f) = or_at-le i j mask m f

or_at-own :
    (i mask : ℕ) (f : Bytes) → i < length f → mask ≤ bit_and (byte_at (or_at i mask f) i) mask
unfolding or_at byte_at
or_at-own i mask [] h = absurd (omega arith)
or_at-own zero mask (b ∷ f) h =
    omega (arith, (wide b mask mask).1, bit_and_self mask mask (below_pow mask))
or_at-own (suc i) mask (b ∷ f) h = or_at-own i mask f (omega arith)

length-or_at : (i mask : ℕ) (f : Bytes) → length (or_at i mask f) ≡ length f
unfolding or_at
length-or_at i mask [] = refl
length-or_at zero mask (b ∷ f) = refl
length-or_at (suc i) mask (b ∷ f) = omega (arith, length-or_at i mask f)

set_bit-Marked : (f : Bytes) (pos : ℕ) → pos / 8 < length f → Marked (set_bit f pos) pos
unfolding set_bit
set_bit-Marked f pos h =
    omega
      (arith, or_at-own (pos / 8) (2 ^ (pos % 8)) f h, pow_part 0 (pos % 8) (pos % 8) (omega arith))

set_bit-keeps : (f : Bytes) (pos other : ℕ) → Marked f other → Marked (set_bit f pos) other
unfolding set_bit
set_bit-keeps f pos other h =
    omega (arith, or_at-le (pos / 8) (other / 8) (2 ^ (pos % 8)) (2 ^ (other % 8)) f)

-- All probes of a key, from the hash `h` on, are set.
abbrev pub AllMarked : ℕ → ℕ → ℕ → ℕ → Bytes → Type 0
AllMarked zero bits delta h f = Unit {0}
AllMarked (suc n) bits delta h f =
    Marked f (h % bits) × AllMarked n bits delta ((h + delta) % 2 ^ 32) f

add_probes-keeps :
    (n bits delta h : ℕ) (f : Bytes) (pos : ℕ)
    → Marked f pos
    → Marked (add_probes n bits delta h f) pos
unfolding add_probes
add_probes-keeps zero bits delta h f pos m = m
add_probes-keeps (suc n) bits delta h f pos m =
    add_probes-keeps n bits delta ((h + delta) % 2 ^ 32) (set_bit f (h % bits)) pos
      (set_bit-keeps f (h % bits) pos m)

AllMarked-keeps :
    (n bits delta h : ℕ) (f g : Bytes)
    → ((pos : ℕ) → Marked f pos → Marked g pos)
    → AllMarked n bits delta h f
    → AllMarked n bits delta h g
AllMarked-keeps zero bits delta h f g keeps m = tt
AllMarked-keeps (suc n) bits delta h f g keeps m =
    (keeps (h % bits) m.0, AllMarked-keeps n bits delta ((h + delta) % 2 ^ 32) f g keeps m.1)

length-set_bit : (f : Bytes) (pos : ℕ) → length (set_bit f pos) ≡ length f
unfolding set_bit
length-set_bit f pos = length-or_at (pos / 8) (2 ^ (pos % 8)) f

in_array : (h bytes : ℕ) → 1 ≤ bytes → (h % (bytes * 8)) / 8 < bytes
in_array h bytes some_bytes = omega (arith, mod-lt h {m = bytes * 8} (omega arith))

add_probes-marks :
    (n bytes delta h : ℕ) (f : Bytes)
    → 1 ≤ bytes
    → length f ≡ bytes
    → AllMarked n (bytes * 8) delta h (add_probes n (bytes * 8) delta h f)
      × (length (add_probes n (bytes * 8) delta h f) ≡ bytes)
unfolding add_probes
add_probes-marks zero bytes delta h f some_bytes e = (tt, e)
add_probes-marks (suc n) bytes delta h f some_bytes e =
    let pos : ℕ = h % (bytes * 8) in
    let g : Bytes = set_bit f pos in
    let ih =
      add_probes-marks n bytes delta ((h + delta) % 2 ^ 32) g some_bytes
        (length-set_bit f pos ∙ e) in
    (
      (
        add_probes-keeps n (bytes * 8) delta ((h + delta) % 2 ^ 32) g pos
            (set_bit-Marked f pos (omega (arith, in_array h bytes some_bytes, e))),
        ih.0,
      ),
      ih.1,
    )

-- All probes of `key` are set in an array of `bytes` bytes.
abbrev pub Holds : ℕ → ℕ → Bytes → Bytes → Type 0
Holds k bytes key f = AllMarked k (bytes * 8) (rotated (hash key)) (hash key) f

add_keys-keeps :
    (k bits : ℕ) (keys : List Bytes) (f : Bytes) (pos : ℕ)
    → Marked f pos
    → Marked (add_keys k bits keys f) pos
unfolding add_keys
add_keys-keeps k bits [] f pos m = m
add_keys-keeps k bits (key ∷ keys) f pos m =
    add_keys-keeps k bits keys (add_probes k bits (rotated (hash key)) (hash key) f) pos
      (add_probes-keeps k bits (rotated (hash key)) (hash key) f pos m)

add_keys-Holds :
    (k bytes : ℕ) (keys : List Bytes) (f : Bytes)
    → 1 ≤ bytes
    → length f ≡ bytes
    → All (λ key. Holds k bytes key (add_keys k (bytes * 8) keys f)) keys
      × (length (add_keys k (bytes * 8) keys f) ≡ bytes)
unfolding add_keys
add_keys-Holds k bytes [] f some_bytes e = (tt, e)
add_keys-Holds k bytes (key ∷ keys) f some_bytes e =
    let delta : ℕ = rotated (hash key) in
    let g : Bytes = add_probes k (bytes * 8) delta (hash key) f in
    let marks = add_probes-marks k bytes delta (hash key) f some_bytes e in
    let ih = add_keys-Holds k bytes keys g some_bytes marks.1 in
    (
      (
        AllMarked-keeps k (bytes * 8) delta (hash key) g (add_keys k (bytes * 8) keys g)
            (λ pos m. add_keys-keeps k (bytes * 8) keys g pos m) marks.0,
        ih.0,
      ),
      ih.1,
    )

byte_at-append : (f g : Bytes) (i : ℕ) → i < length f → byte_at (f ++ g) i ≡ byte_at f i
unfolding byte_at
byte_at-append [] g i h = absurd (omega arith)
byte_at-append (b ∷ f) g zero h = refl
byte_at-append (b ∷ f) g (suc i) h = byte_at-append f g i (omega arith)

byte_at-last : (f : Bytes) (k : ℕ) → byte_at (f ++ k ∷ []) (length f) ≡ k
unfolding byte_at
byte_at-last [] k = refl
byte_at-last (b ∷ f) k = byte_at-last f k

match_probes-AllMarked :
    (n bytes delta h : ℕ) (f : Bytes) (k : ℕ)
    → 1 ≤ bytes
    → length f ≡ bytes
    → AllMarked n (bytes * 8) delta h f
    → match_probes n (bytes * 8) delta h (f ++ k ∷ []) ≡ true
unfolding match_probes
match_probes-AllMarked zero bytes delta h f k some_bytes e m = refl
match_probes-AllMarked (suc n) bytes delta h f k some_bytes e m =
    let same : byte_at (f ++ k ∷ []) (h % (bytes * 8) / 8) ≡ byte_at f (h % (bytes * 8) / 8) =
      byte_at-append f (k ∷ []) (h % (bytes * 8) / 8)
        (omega (arith, in_array h bytes some_bytes, e)) in
    rw (same, match_probes-AllMarked n bytes delta ((h + delta) % 2 ^ 32) f k some_bytes e m.1)
      (ground (arith, m.0))

Matches-Holds :
    (k bytes : ℕ) (f key : Bytes)
    → 1 ≤ bytes
    → length f ≡ bytes
    → Holds k bytes key f
    → key_may_match (f ++ k ∷ []) key ≡ true
unfolding key_may_match
Matches-Holds k bytes f key some_bytes e h =
    let size : length (f ++ k ∷ []) ≡ suc (length f) = omega (arith, length-append f (k ∷ [])) in
    let last : suc (length f) - 1 ≡ length f = omega arith in
    rw
      (
        size,
        last,
        byte_at-last f k,
        e,
        match_probes-AllMarked k bytes (rotated (hash key)) (hash key) f k some_bytes e h,
      )
      (ground arith)

All-map :
    (P Q : Bytes → Type 0) (keys : List Bytes)
    → ((key : Bytes) → P key → Q key)
    → All P keys
    → All Q keys
All-map P Q [] step h = tt
All-map P Q (key ∷ keys) step h = (step key h.0, All-map P Q keys step h.1)

some_bytes_lem : (n bits_per_key : ℕ) → 1 ≤ array_bytes n bits_per_key
unfolding array_bytes
some_bytes_lem n bits_per_key = ground arith

-- KeyMayMatch is true of every key that the filter was built from, for any number of keys, bits
-- per key and probes.
pub build_filter-matches :
    (scale : ℕ → ℕ) (keys : List Bytes) (bits_per_key : ℕ)
    → All (λ key. key_may_match (build_filter scale keys bits_per_key) key ≡ true) keys
unfolding build_filter
build_filter-matches scale [] bits_per_key = tt
build_filter-matches scale (key ∷ keys) bits_per_key =
    let bytes : ℕ = array_bytes (length (key ∷ keys)) bits_per_key in
    let k : ℕ = probe_count (scale bits_per_key) in
    let f : Bytes = add_keys k (bytes * 8) (key ∷ keys) (replicate bytes 0) in
    let some_bytes : 1 ≤ bytes = some_bytes_lem (length (key ∷ keys)) bits_per_key in
    let held =
      add_keys-Holds k bytes (key ∷ keys) (replicate bytes 0) some_bytes
        (length-replicate bytes 0) in
    All-map (λ x. Holds k bytes x f) (λ x. key_may_match (f ++ k ∷ []) x ≡ true) (key ∷ keys)
      (λ x h. Matches-Holds k bytes f x some_bytes held.1 h) held.0
