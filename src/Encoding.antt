-- ===== src/Encoding.antt =====
-- include/bedrockkv/encoding.h: little-endian fixed-width integers. A `char*` is the list of bytes
-- from that address on. `& 0xffu` is `% 256` and `>> k` is `/ 2 ^ k`.
pub mod RoundTrip
use Prim.Native.Nat.{bit_or}
use bedrockkv.Prelude.{ℕ, zero, suc, ◌*◌, ◌/◌, ◌%◌, ◌^◌, [], ◌∷◌, ◌++◌, Bytes, byte_at}

-- The four bytes that both forms of `PutFixed32` write.
unfoldable pub fixed32 : ℕ → Bytes
fixed32 v = (v % 256) ∷ (v / 2 ^ 8 % 256) ∷ (v / 2 ^ 16 % 256) ∷ (v / 2 ^ 24 % 256) ∷ []

unfoldable pub put_fixed32 : Bytes → ℕ → Bytes
put_fixed32 dst v = dst ++ fixed32 v

-- The loop of `PutFixed64`, with `n` rounds left from byte `i` on.
unfoldable pub fixed64_loop : ℕ → ℕ → ℕ → Bytes
fixed64_loop zero i v = []
fixed64_loop (suc n) i v = (v / 2 ^ (8 * i) % 256) ∷ fixed64_loop n (suc i) v

unfoldable pub fixed64 : ℕ → Bytes
unfolding fixed64_loop
fixed64 v = fixed64_loop 8 0 v

unfoldable pub put_fixed64 : Bytes → ℕ → Bytes
put_fixed64 dst v = dst ++ fixed64 v

unfoldable pub get_fixed32 : Bytes → ℕ
get_fixed32 src =
    bit_or
      (bit_or (bit_or (byte_at src 0) (byte_at src 1 * 2 ^ 8 % 2 ^ 32))
        (byte_at src 2 * 2 ^ 16 % 2 ^ 32))
      (byte_at src 3 * 2 ^ 24 % 2 ^ 32)

-- The loop of `GetFixed64`: byte `i - 1` is next.
unfoldable pub get_fixed64_loop : ℕ → Bytes → ℕ → ℕ
get_fixed64_loop zero src v = v
get_fixed64_loop (suc i) src v =
    get_fixed64_loop i src (bit_or (v * 2 ^ 8 % 2 ^ 64) (byte_at src i))

unfoldable pub get_fixed64 : Bytes → ℕ
unfolding get_fixed64_loop
get_fixed64 src = get_fixed64_loop 8 src 0
