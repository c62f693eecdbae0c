-- ===== src/Key.antt =====
-- Internal keys, include/bedrockkv/block.h and src/block.cpp: a user key and a tag of eight bytes,
-- `(seq << 8) | type`, ordered by the user key and then by the larger tag.
pub mod Laws
use Prim.Native.Nat.{bit_or}
use bedrockkv.Prelude.{
  ℕ, ◌+◌, ◌-◌, ◌*◌, ◌%◌, ◌^◌, Bool, not, ◌++◌, Bytes, length, take, drop, ltb, leb, ◌==◌,
  if◌then◌else◌,
}
use bedrockkv.Prelude.Order.{bytes_lt, bytes_eq}
use bedrockkv.Encoding.{get_fixed64, put_fixed64}

abbrev pub type_deletion : ℕ
type_deletion = 0

abbrev pub type_value : ℕ
type_value = 1

-- `(seq << 8) | type`, as a uint64
unfoldable pub make_tag : ℕ → ℕ → ℕ
make_tag seq type = bit_or (seq * 2 ^ 8 % 2 ^ 64) type

-- `EncodeInternalKey` of src/sstable.cpp
unfoldable pub encode_internal_key : Bytes → ℕ → ℕ → Bytes
unfolding make_tag put_fixed64
encode_internal_key user_key seq type = put_fixed64 user_key (make_tag seq type)

unfoldable pub extract_user_key : Bytes → Bytes
extract_user_key k = if leb 8 (length k) then take (length k - 8) k else k

unfoldable pub extract_tag : Bytes → ℕ
extract_tag k = if leb 8 (length k) then get_fixed64 (drop (length k - 8) k) else 0

-- The length of the user key, as the comparator takes it.
unfoldable pub user_size : Bytes → ℕ
user_size k = if leb 8 (length k) then length k - 8 else length k

unfoldable pub tag_from : Bytes → ℕ → ℕ
tag_from k user = if user == length k then 0 else get_fixed64 (drop user k)

-- `InternalKeyComparator::operator()`
unfoldable pub key_less : Bytes → Bytes → Bool
unfolding user_size tag_from
key_less a b =
    let a_user = user_size a in
    let b_user = user_size b in
    let a_key = take a_user a in
    let b_key = take b_user b in
    if not (bytes_eq a_key b_key)
    then bytes_lt a_key b_key
    else ltb (tag_from b b_user) (tag_from a a_user)
