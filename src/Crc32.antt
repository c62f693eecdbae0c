-- ===== src/Crc32.antt =====
-- src/crc32.cpp and include/bedrockkv/crc32.h: the reflected CRC-32 with its lookup table.
pub mod Streaming
pub mod Detection
use Prim.Native.Nat.{bit_and, bit_xor}
use bedrockkv.Prelude.{ℕ, zero, suc, ◌/◌, ◌%◌, ◌^◌, [], ◌∷◌, Bytes, ◌==◌, if◌then◌else◌}

-- `(c & 1u) ? (0xEDB88320u ^ (c >> 1)) : (c >> 1)`
unfoldable pub table_bit : ℕ → ℕ
table_bit c = if bit_and c 1 == 0 then c / 2 else bit_xor 0xEDB88320 (c / 2)

-- The inner loop of `Crc32Table`, with `bits` rounds left.
unfoldable pub table_loop : ℕ → ℕ → ℕ
unfolding table_bit
table_loop zero c = c
table_loop (suc bits) c = table_loop bits (table_bit c)

-- `kTable.values[i]`, computed where it is read.
unfoldable pub table : ℕ → ℕ
unfolding table_loop
table i = table_loop 8 i

-- The loop over the bytes, on the inverted value.
unfoldable pub crc_loop : Bytes → ℕ → ℕ
unfolding table
crc_loop [] c = c
crc_loop (p ∷ ps) c = crc_loop ps (bit_xor (table (bit_and (bit_xor c p) 0xFF)) (c / 2 ^ 8))

-- `Crc32(data, n, crc)`
unfoldable pub crc32 : Bytes → ℕ → ℕ
unfolding crc_loop
crc32 bytes crc = bit_xor (crc_loop bytes (bit_xor crc 0xFFFFFFFF)) 0xFFFFFFFF
