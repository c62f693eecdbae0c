-- ===== src/Db/Record.antt =====
-- The payload of one log record, src/db.cpp: how `DB::WriteEntry` lays it out and how `ParseRecord`
-- reads it back. An addition of two `uint32_t` wraps, and is written with `% 2 ^ 32`.
pub mod RoundTrip
use bedrockkv.Prelude.{
  ℕ, ◌+◌, ◌-◌, ◌%◌, ◌^◌, Option, none, some, not, [], ◌∷◌, ◌++◌, Bytes, length, take, drop, byte_at,
  ltb, ◌==◌, if◌then◌else◌,
}
use bedrockkv.Encoding.{fixed32, fixed64, get_fixed32, get_fixed64}
use bedrockkv.Key.{type_deletion, type_value}

-- What `ParseRecord` returns through its four pointers.
pub record LogRecord : Type 0 where
  pub seq : ℕ
  pub type : ℕ
  pub key : Bytes
  pub value : Bytes

-- `payload` in `DB::WriteEntry`; `stored` is the value or the pointer that stands for it.
unfoldable pub encode_record : ℕ → ℕ → Bytes → Bytes → Bytes
encode_record seq type key stored =
    fixed64 seq
    ++ ((type % 256)
        ∷ (fixed32 (length key % 2 ^ 32)
            ++ (key
                ++ (if type == type_value
                    then fixed32 (length stored % 2 ^ 32) ++ stored
                    else []))))

-- The branch of `ParseRecord` for a value, and the one for a deletion.
unfoldable pub parse_value : Bytes → ℕ → Bytes → ℕ → Option LogRecord
parse_value payload seq key klen =
    let vlen = get_fixed32 (drop (13 + klen) payload) in
    if ltb (length payload) ((17 + klen) % 2 ^ 32)
    then none
    else if not (length payload == (17 + klen) % 2 ^ 32 + vlen)
    then none
    else some (record {
      seq = seq;
      type = type_value;
      key = key;
      value = take vlen (drop (17 + klen) payload);
    })

unfoldable pub parse_deletion : Bytes → ℕ → Bytes → ℕ → Option LogRecord
parse_deletion payload seq key klen =
    if not (length payload == (13 + klen) % 2 ^ 32)
    then none
    else some (record { seq = seq; type = type_deletion; key = key; value = [] })

unfoldable pub parse_record : Bytes → Option LogRecord
unfolding parse_value parse_deletion
parse_record payload =
    if ltb (length payload) 13
    then none
    else let klen = get_fixed32 (drop 9 payload) in
      let type = byte_at payload 8 in
      let key = take klen (drop 13 payload) in
      if ltb (length payload - 13) klen
      then none
      else if type == type_value
      then parse_value payload (get_fixed64 payload) key klen
      else if type == type_deletion
      then parse_deletion payload (get_fixed64 payload) key klen
      else none
