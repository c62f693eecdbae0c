-- ===== src/Bloom.antt =====
-- The Bloom filter of a table, include/bedrockkv/bloom.h. The truncated product with the `double`
-- 0.69 is a parameter.
pub mod Membership
use bedrockkv.Prelude.{
  ℕ, zero, suc, ◌+◌, ◌-◌, ◌*◌, ◌/◌, ◌%◌, ◌^◌, Bool, true, false, List, [], ◌∷◌, ◌++◌, Bytes, length,
  replicate, byte_at, ltb, ◌==◌, if◌then◌else◌,
}
use Prim.Native.Nat.{bit_and, bit_or}
use bedrockkv.Crc32.{crc32}

unfoldable pub hash : Bytes → ℕ
hash key = crc32 key 0xbc9f1d34

-- `(h >> 17) | (h << 15)`, as a uint32
unfoldable pub rotated : ℕ → ℕ
rotated h = bit_or (h / 2 ^ 17) (h * 2 ^ 15 % 2 ^ 32)

unfoldable pub or_at : ℕ → ℕ → Bytes → Bytes
or_at i mask [] = []
or_at zero mask (b ∷ f) = bit_or b mask ∷ f
or_at (suc i) mask (b ∷ f) = b ∷ or_at i mask f

-- `filter[bitpos / 8] |= 1 << (bitpos % 8)`
unfoldable pub set_bit : Bytes → ℕ → Bytes
set_bit f pos = or_at (pos / 8) (2 ^ (pos % 8)) f

-- The probes of one key, with `n` left.
unfoldable pub add_probes : ℕ → ℕ → ℕ → ℕ → Bytes → Bytes
add_probes zero bits delta h f = f
add_probes (suc n) bits delta h f =
    add_probes n bits delta ((h + delta) % 2 ^ 32) (set_bit f (h % bits))

unfoldable pub add_keys : ℕ → ℕ → List Bytes → Bytes → Bytes
unfolding add_probes
add_keys k bits [] f = f
add_keys k bits (key ∷ keys) f =
    add_keys k bits keys (add_probes k bits (rotated (hash key)) (hash key) f)

-- `k`, between 1 and 30
unfoldable pub probe_count : ℕ → ℕ
probe_count k = if ltb k 1 then 1 else if ltb 30 k then 30 else k

-- The bytes of the array: 64 bits at least.
unfoldable pub array_bytes : ℕ → ℕ → ℕ
array_bytes n bits_per_key =
    let bits = n * bits_per_key % 2 ^ 64 in ((if ltb bits 64 then 64 else bits) + 7) / 8

-- `BuildFilter`; `scale` is `static_cast<int>(bits_per_key * 0.69)`.
unfoldable pub build_filter : (ℕ → ℕ) → List Bytes → ℕ → Bytes
unfolding add_keys
build_filter scale [] bits_per_key = []
build_filter scale (key ∷ keys) bits_per_key =
    let bytes = array_bytes (length (key ∷ keys)) bits_per_key in
    let k = probe_count (scale bits_per_key) in
    add_keys k (bytes * 8) (key ∷ keys) (replicate bytes 0) ++ k ∷ []

unfoldable pub match_probes : ℕ → ℕ → ℕ → ℕ → Bytes → Bool
match_probes zero bits delta h f = true
match_probes (suc n) bits delta h f =
    let rest = match_probes n bits delta ((h + delta) % 2 ^ 32) f in
    let pos = h % bits in if bit_and (byte_at f (pos / 8)) (2 ^ (pos % 8)) == 0 then false else rest

-- `KeyMayMatch`
unfoldable pub key_may_match : Bytes → Bytes → Bool
unfolding match_probes
key_may_match f key =
    if ltb (length f) 2
    then true
    else match_probes (byte_at f (length f - 1)) ((length f - 1) * 8) (rotated (hash key))
        (hash key) f
