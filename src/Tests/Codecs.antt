-- ===== src/Tests/Codecs.antt =====
-- Checksums, fixed-width integers, keys and records at concrete inputs.
use bedrockkv.Prelude.{◌≡◌, ◌≢◌, refl, true, false, ◌∷◌, ◌++◌, some, arith}
use bedrockkv.Prelude.Text.{codes}
use bedrockkv.Crc32.{crc32}
use bedrockkv.Crc32.Streaming.{crc32-append}
use bedrockkv.Crc32.Detection.{crc32_detects_byte}
use bedrockkv.Key.{encode_internal_key, key_less}
use bedrockkv.Key.Laws.{key_less_newest_first}
use bedrockkv.Db.Record.{encode_record, parse_record}
use bedrockkv.Db.Record.RoundTrip.{parse_record-put}

-- The check value of CRC-32.
crc32_check : crc32 (codes "123456789") 0 ≡ 0xCBF43926
unfolding crc32
crc32_check = refl

crc32-append_example :
    crc32 (codes "ab" ++ codes "cd") 0 ≡ crc32 (codes "cd") (crc32 (codes "ab") 0)
crc32-append_example = crc32-append (codes "ab") (codes "cd") 0 (omega arith)

crc32_detects_byte_example :
    crc32 (codes "a" ++ 66 ∷ codes "c") 0 ≢ crc32 (codes "a" ++ 67 ∷ codes "c") 0
crc32_detects_byte_example =
    crc32_detects_byte (codes "a") (codes "c") 66 67 0 (omega arith) (omega arith) (omega arith)
      (ground arith)

key_less_newest_first_example :
    (key_less (encode_internal_key (codes "k") 6 0) (encode_internal_key (codes "k") 5 1) ≡ true)
    × (key_less (encode_internal_key (codes "k") 5 1) (encode_internal_key (codes "k") 6 0) ≡ false)
key_less_newest_first_example =
    key_less_newest_first (codes "k") 6 5 0 1 (omega arith) (omega arith) (omega arith)
      (omega arith) (omega arith)

parse_record-put_example :
    parse_record (encode_record 7 1 (codes "k") (codes "v"))
    ≡ some (record { seq = 7; type = 1; key = codes "k"; value = codes "v" })
parse_record-put_example =
    parse_record-put 7 (codes "k") (codes "v") (omega arith) (omega arith) (omega arith)
