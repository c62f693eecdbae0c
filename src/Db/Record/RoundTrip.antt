-- ===== src/Db/Record/RoundTrip.antt =====
-- `ParseRecord` inverts the layout of `WriteEntry`.
use bedrockkv.Prelude.{
  ℕ, ◌+◌, ◌-◌, ◌%◌, ◌^◌, ◌<◌, ◌≡◌, refl, ap, sym, ◌∙◌, some, [], ◌∷◌, ◌++◌, arith, Bytes, IsU32,
  IsU64, length, take, drop, byte_at, length-append, take-append, drop-append, drop-drop, take_all,
}
use bedrockkv.Encoding.{fixed32, fixed64, get_fixed32, get_fixed64}
use bedrockkv.Encoding.RoundTrip.{length-fixed32, get_fixed32-fixed32, get_fixed64-fixed64}
use bedrockkv.Key.{type_deletion, type_value}
use bedrockkv.Db.Record.{encode_record, parse_record}

-- Both layouts begin alike, with the value's part as a tail.
abbrev layout : ℕ → ℕ → Bytes → Bytes → Bytes
layout seq type key tail = fixed64 seq ++ (type ∷ (fixed32 (length key % 2 ^ 32) ++ (key ++ tail)))

module _ (seq type : ℕ) (key tail : Bytes) where
  length-layout : length (layout seq type key tail) ≡ 13 + (length key + length tail)
  unfolding fixed64 fixed32
  length-layout = omega (arith, length-append key tail)

  type-layout : byte_at (layout seq type key tail) 8 ≡ type
  unfolding byte_at fixed64
  type-layout = refl

  klen-layout : drop 9 (layout seq type key tail) ≡ fixed32 (length key % 2 ^ 32) ++ (key ++ tail)
  unfolding drop fixed64
  klen-layout = refl

  key-layout : drop 13 (layout seq type key tail) ≡ key ++ tail
  unfolding drop fixed64 fixed32
  key-layout = refl

  tail-layout : drop (13 + length key) (layout seq type key tail) ≡ tail
  tail-layout =
      sym (drop-drop (length key) 13 (layout seq type key tail))
      ∙ ap (drop (length key)) key-layout
      ∙ drop-append (length key) key tail refl

  get-klen : IsU32 (length key) → get_fixed32 (drop 9 (layout seq type key tail)) ≡ length key
  get-klen h =
      let e : length key % 2 ^ 32 ≡ length key = omega arith in
      ap get_fixed32 klen-layout
      ∙ get_fixed32-fixed32 (length key % 2 ^ 32) (key ++ tail) (omega arith)
      ∙ e

  get-key : take (length key) (drop 13 (layout seq type key tail)) ≡ key
  get-key = ap (take (length key)) key-layout ∙ take-append (length key) key tail refl

  get-seq : IsU64 seq → get_fixed64 (layout seq type key tail) ≡ seq
  get-seq h = get_fixed64-fixed64 seq (type ∷ (fixed32 (length key % 2 ^ 32) ++ (key ++ tail))) h

-- ParseRecord reads back the log payload of a put, if the sequence number is below 2^64, the key
-- is below 2^32 - 17 bytes and the value below 2^32 bytes.
pub parse_record-put :
    (seq : ℕ) (key value : Bytes)
    → IsU64 seq
    → length key < 2 ^ 32 - 17
    → IsU32 (length value)
    → parse_record (encode_record seq type_value key value)
      ≡ some (record { seq = seq; type = type_value; key = key; value = value })
unfolding encode_record parse_record
parse_record-put seq key value hs hk hv =
    let tail : Bytes = fixed32 (length value % 2 ^ 32) ++ value in
    let p : Bytes = layout seq 1 key tail in
    let lv : length value % 2 ^ 32 ≡ length value = omega arith in
    let lt : length tail ≡ 4 + length value = omega (
      arith,
      length-append (fixed32 (length value % 2 ^ 32)) value,
      length-fixed32 (length value % 2 ^ 32),
    ) in
    let vlen : get_fixed32 (drop (13 + length key) p) ≡ length value =
      ap get_fixed32 (tail-layout seq 1 key tail)
      ∙ get_fixed32-fixed32 (length value % 2 ^ 32) value (omega arith)
      ∙ lv in
    let rest : drop (17 + length key) p ≡ value =
      ap (λ (n : ℕ). drop n p) (omega arith)
      ∙ sym (drop-drop 4 (13 + length key) p)
      ∙ ap (drop 4) (tail-layout seq 1 key tail)
      ∙ drop-append 4 (fixed32 (length value % 2 ^ 32)) value
          (sym (length-fixed32 (length value % 2 ^ 32))) in
    let val : take (length value) (drop (17 + length key) p) ≡ value =
      ap (take (length value)) rest ∙ take_all (length value) value (omega arith) in
    rw
      (
        get-klen seq 1 key tail (omega arith),
        type-layout seq 1 key tail,
        get-key seq 1 key tail,
        get-seq seq 1 key tail hs,
        vlen,
        val,
      )
      (ground (arith, length-layout seq 1 key tail, lt))

-- ParseRecord reads back the log payload of a deletion.
pub parse_record-delete :
    (seq : ℕ) (key stored : Bytes)
    → IsU64 seq
    → length key < 2 ^ 32 - 13
    → parse_record (encode_record seq type_deletion key stored)
      ≡ some (record { seq = seq; type = type_deletion; key = key; value = [] })
unfolding encode_record parse_record
parse_record-delete seq key stored hs hk =
    rw
      (
        get-klen seq 0 key [] (omega arith),
        type-layout seq 0 key [],
        get-key seq 0 key [],
        get-seq seq 0 key [] hs,
      )
      (ground (arith, length-layout seq 0 key []))
