-- ===== src/Vlog/Pointer.antt =====
-- Value pointers are read back as they were written.
use bedrockkv.Prelude.{
  ◌≡◌, refl, ap, sym, ◌∙◌, some, [], ◌++◌, append-nil, IsU32, IsU64, length, drop, byte_at,
}
use bedrockkv.Encoding.{fixed32, fixed64, get_fixed32, get_fixed64}
use bedrockkv.Encoding.RoundTrip.{get_fixed32-fixed32, get_fixed64-fixed64}
use bedrockkv.Vlog.{ValuePointer, pointer_size, encode_value_pointer, decode_value_pointer}

pub length-encode_value_pointer :
    (p : ValuePointer) → length (encode_value_pointer p) ≡ pointer_size
unfolding encode_value_pointer fixed64 fixed32
length-encode_value_pointer p = refl

-- DecodeValuePointer reads back what EncodeValuePointer wrote.
pub decode_value_pointer-encode_value_pointer :
    (p : ValuePointer)
    → IsU64 p.vlog_number
    → IsU64 p.offset
    → IsU32 p.value_size
    → decode_value_pointer (encode_value_pointer p) ≡ some p
unfolding decode_value_pointer
decode_value_pointer-encode_value_pointer p hn ho hs =
    unfold encode_value_pointer drop fixed64 fixed32 byte_at in
    λ i.
      some (record { vlog_number = get_number i; offset = get_offset i; value_size = get_size i })
  where
    get_number :
        get_fixed64 (fixed64 p.vlog_number ++ (fixed64 p.offset ++ fixed32 p.value_size))
        ≡ p.vlog_number
    get_number = get_fixed64-fixed64 p.vlog_number (fixed64 p.offset ++ fixed32 p.value_size) hn

    get_offset : get_fixed64 (fixed64 p.offset ++ fixed32 p.value_size) ≡ p.offset
    get_offset = get_fixed64-fixed64 p.offset (fixed32 p.value_size) ho

    get_size : get_fixed32 (fixed32 p.value_size) ≡ p.value_size
    get_size =
        ap get_fixed32 (sym (append-nil (fixed32 p.value_size)))
        ∙ get_fixed32-fixed32 p.value_size [] hs
