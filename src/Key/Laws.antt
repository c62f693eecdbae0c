-- ===== src/Key/Laws.antt =====
-- The comparator of internal keys is a strict weak order, and on encoded keys it is the order by
-- user key, then by falling tag.
use bedrockkv.Prelude.{
  ℕ, ◌+◌, ◌-◌, ◌*◌, ◌/◌, ◌%◌, ◌^◌, ◌<◌, ◌≡◌, refl, ap, sym, ◌∙◌, Bool, true, false, not, [],
  append-nil, arith, Bytes, IsByte, IsU64, length, take, drop, ltb, if◌then◌else◌, length-append,
  take-append, drop-append,
}
use bedrockkv.Prelude.Order.{
  bytes_lt, bytes_eq, bytes_eq_self, eq_of_bytes_eq, bytes_lt_irrefl, bytes_lt_trans,
  bytes_lt_asymm, bytes_eq-lt,
}
use bedrockkv.Prelude.Bits.{bit_or_high_low}
use bedrockkv.Encoding.{get_fixed64, put_fixed64, fixed64}
use bedrockkv.Encoding.RoundTrip.{length-fixed64, get_fixed64-fixed64}
use bedrockkv.Key.{
  make_tag, encode_internal_key, extract_user_key, extract_tag, user_size, tag_from, key_less,
}

-- The comparison that the comparator makes of user keys and tags.
unfoldable pub entry_less : Bytes → ℕ → Bytes → ℕ → Bool
entry_less ka ta kb tb = if not (bytes_eq ka kb) then bytes_lt ka kb else ltb tb ta

pub entry_less_irrefl : (k : Bytes) (t : ℕ) → entry_less k t k t ≡ false
unfolding entry_less
entry_less_irrefl k t = ground (arith, bytes_eq_self k)

pub entry_less_trans :
    (ka kb kc : Bytes) (ta tb tc : ℕ)
    → entry_less ka ta kb tb ≡ true
    → entry_less kb tb kc tc ≡ true
    → entry_less ka ta kc tc ≡ true
unfolding entry_less
entry_less_trans ka kb kc ta tb tc h k = ground (
  arith,
  eq_of_bytes_eq ka kb,
  eq_of_bytes_eq kb kc,
  eq_of_bytes_eq ka kc,
  bytes_eq_self ka,
  bytes_lt_trans ka kb kc,
  bytes_lt_asymm ka kb,
  bytes_lt_asymm kb kc,
  bytes_eq-lt ka kc,
  bytes_lt_irrefl ka,
)

abbrev key_of : Bytes → Bytes
key_of k = take (user_size k) k

abbrev tag_of : Bytes → ℕ
tag_of k = tag_from k (user_size k)

key_less-entry :
    (a b : Bytes) → key_less a b ≡ entry_less (key_of a) (tag_of a) (key_of b) (tag_of b)
unfolding key_less entry_less
key_less-entry a b = refl

-- No key is less than itself.
pub key_less_irrefl : (a : Bytes) → key_less a a ≡ false
key_less_irrefl a = key_less-entry a a ∙ entry_less_irrefl (key_of a) (tag_of a)

-- The comparator of internal keys is transitive on any byte strings.
pub key_less_trans :
    (a b c : Bytes) → key_less a b ≡ true → key_less b c ≡ true → key_less a c ≡ true
key_less_trans a b c h k =
    key_less-entry a c
    ∙ entry_less_trans (key_of a) (key_of b) (key_of c) (tag_of a) (tag_of b) (tag_of c)
        (sym (key_less-entry a b) ∙ h) (sym (key_less-entry b c) ∙ k)

make_tag_sum : (seq type : ℕ) → seq < 2 ^ 56 → IsByte type → make_tag seq type ≡ seq * 256 + type
unfolding make_tag
make_tag_sum seq type h k =
    let e : seq * 2 ^ 8 % 2 ^ 64 ≡ seq * 2 ^ 8 = omega arith in
    rw e (bit_or_high_low 8 seq type 56 k h)

length_key : (u : Bytes) (tag : ℕ) → length (put_fixed64 u tag) ≡ length u + 8
unfolding put_fixed64
length_key u tag = omega (arith, length-append u (fixed64 tag), length-fixed64 tag)

user_size_lem : (u : Bytes) (tag : ℕ) → user_size (put_fixed64 u tag) ≡ length u
unfolding user_size
user_size_lem u tag = ground (arith, length_key u tag)

take_key : (n : ℕ) (u : Bytes) (tag : ℕ) → n ≡ length u → take n (put_fixed64 u tag) ≡ u
unfolding put_fixed64
take_key n u tag h = take-append n u (fixed64 tag) h

drop_key : (n : ℕ) (u : Bytes) (tag : ℕ) → n ≡ length u → drop n (put_fixed64 u tag) ≡ fixed64 tag
unfolding put_fixed64
drop_key n u tag h = drop-append n u (fixed64 tag) h

get_tag : (tag : ℕ) → IsU64 tag → get_fixed64 (fixed64 tag) ≡ tag
get_tag tag h = ap get_fixed64 (sym (append-nil (fixed64 tag))) ∙ get_fixed64-fixed64 tag [] h

pub extract_user_key-key : (u : Bytes) (tag : ℕ) → extract_user_key (put_fixed64 u tag) ≡ u
unfolding extract_user_key
extract_user_key-key u tag =
    ground (arith, length_key u tag, take_key (length (put_fixed64 u tag) - 8) u tag)

pub extract_tag-key : (u : Bytes) (tag : ℕ) → IsU64 tag → extract_tag (put_fixed64 u tag) ≡ tag
unfolding extract_tag
extract_tag-key u tag h =
    ground (arith, length_key u tag, drop_key (length (put_fixed64 u tag) - 8) u tag, get_tag tag h)

tag_from_key : (u : Bytes) (tag : ℕ) → IsU64 tag → tag_of (put_fixed64 u tag) ≡ tag
unfolding tag_from
tag_from_key u tag h = ground (
  arith,
  length_key u tag,
  user_size_lem u tag,
  drop_key (user_size (put_fixed64 u tag)) u tag,
  get_tag tag h,
)

-- On keys that end in a tag the comparator compares user keys, then tags, the larger tag first.
pub key_less-key :
    (u v : Bytes) (s t : ℕ)
    → IsU64 s
    → IsU64 t
    → key_less (put_fixed64 u s) (put_fixed64 v t) ≡ entry_less u s v t
key_less-key u v s t hs ht =
    key_less-entry (put_fixed64 u s) (put_fixed64 v t)
    ∙ rw
        (
          take_key (user_size (put_fixed64 u s)) u s (user_size_lem u s),
          take_key (user_size (put_fixed64 v t)) v t (user_size_lem v t),
          tag_from_key u s hs,
          tag_from_key v t ht,
        )
        refl

-- User key, sequence number and type of an internal key are read back.
pub encode_internal_key_parts :
    (u : Bytes) (seq type : ℕ)
    → seq < 2 ^ 56
    → IsByte type
    → (extract_user_key (encode_internal_key u seq type) ≡ u)
      × (extract_tag (encode_internal_key u seq type) / 2 ^ 8 ≡ seq)
      × (extract_tag (encode_internal_key u seq type) % 256 ≡ type)
unfolding encode_internal_key
encode_internal_key_parts u seq type h k =
    let sum = make_tag_sum seq type h k in
    let tag = extract_tag-key u (make_tag seq type) (omega (arith, sum)) in
    (extract_user_key-key u (make_tag seq type), omega (arith, sum, tag), omega (arith, sum, tag))

-- Of two versions of one user key the one with the larger sequence number sorts first.
pub key_less_newest_first :
    (u : Bytes) (s s' type type' : ℕ)
    → s < 2 ^ 56
    → s' < 2 ^ 56
    → IsByte type
    → IsByte type'
    → s' < s
    → (key_less (encode_internal_key u s type) (encode_internal_key u s' type') ≡ true)
      × (key_less (encode_internal_key u s' type') (encode_internal_key u s type) ≡ false)
unfolding encode_internal_key entry_less
key_less_newest_first u s s' type type' h h' k k' lt =
    let a = make_tag_sum s type h k in
    let b = make_tag_sum s' type' h' k' in
    let less =
      key_less-key u u (make_tag s type) (make_tag s' type') (omega (arith, a))
        (omega (arith, b)) in
    let more =
      key_less-key u u (make_tag s' type') (make_tag s type) (omega (arith, b))
        (omega (arith, a)) in
    (ground (arith, less, a, b, bytes_eq_self u), ground (arith, more, a, b, bytes_eq_self u))
