-- ===== src/Db/Files/Live.antt =====
-- What `RemoveOrphanFiles` (src/db.cpp) makes of the files that the database named itself.
use bedrockkv.Prelude.{
  ℕ, zero, suc, ◌+◌, ◌-◌, ◌*◌, ◌/◌, ◌^◌, ◌≤◌, ◌≡◌, refl, ap, sym, ◌∙◌, true, false, not, inl, inr,
  Bool-cases, none, some, List, [], ◌∷◌, ◌++◌, arith, Bytes, IsU64, length, drop, replicate,
  length-append, take-append, drop-append, drop-drop, ltb, leb,
}
use bedrockkv.Prelude.Order.{bytes_eq, bytes_eq_self, eq_of_bytes_eq}
use bedrockkv.Prelude.Text.{
  codes, decimal, is_digit, all_digits, digits_value, digits_value-decimal, all_digits-decimal,
  length-decimal, all_digits-append,
}
use bedrockkv.Vlog.{pad6, file_name}
use bedrockkv.Db.Files.{
  sst_file_name, parse_number, parse_numbered, is_listed, is_numbered, is_orphan,
}
use bedrockkv.Db.Write.Calls.{log_file_name}

digits_value-grows : (n : ℕ) (cs : Bytes) → n ≤ digits_value n cs
unfolding digits_value
digits_value-grows n [] = omega arith
digits_value-grows n (c ∷ cs) = omega (arith, digits_value-grows (n * 10 + (c - b'0')) cs)

-- The check against the range of 64 bits fails for no number in it.
parse_number-digits :
    (n : ℕ) (cs : Bytes)
    → all_digits cs ≡ true
    → IsU64 (digits_value n cs)
    → parse_number n cs ≡ some (digits_value n cs)
unfolding parse_number all_digits digits_value
parse_number-digits n [] h fits = refl
parse_number-digits n (c ∷ cs) h fits =
    let first : is_digit c ≡ true = ground (arith, h) in
    let others : all_digits cs ≡ true = ground (arith, h) in
    let next = n * 10 + (c - b'0') in
    let grows = digits_value-grows next cs in
    let within : ltb ((2 ^ 64 - 1 - (c - b'0')) / 10) n ≡ false = ground (arith, grows, fits) in
    rw (first, within) (parse_number-digits next cs others fits)

zeros : (k : ℕ) (cs : Bytes) → digits_value 0 (replicate k b'0' ++ cs) ≡ digits_value 0 cs
unfolding replicate digits_value
zeros zero cs = refl
zeros (suc k) cs = zeros k cs

all_digits-zeros : (k : ℕ) → all_digits (replicate k b'0') ≡ true
unfolding replicate all_digits is_digit
all_digits-zeros zero = refl
all_digits-zeros (suc k) = all_digits-zeros k

parse_number-pad6 : (n : ℕ) → IsU64 n → parse_number 0 (pad6 (decimal n)) ≡ some n
parse_number-pad6 n fits =
    let k = 6 - length (decimal n) in
    let value : digits_value 0 (pad6 (decimal n)) ≡ n =
      zeros k (decimal n) ∙ digits_value-decimal n in
    parse_number-digits 0 (pad6 (decimal n))
      (all_digits-append (replicate k b'0') (decimal n) (all_digits-zeros k) (all_digits-decimal n))
      (omega (arith, value, fits))
    ∙ ap some value

length-pad6 : (n : ℕ) → 1 ≤ length (pad6 (decimal n))
length-pad6 n =
    omega
      (arith, length-append (replicate (6 - length (decimal n)) b'0') (decimal n), length-decimal n)

module _ (n : ℕ) (suffix : Bytes) where
  abbrev name : Bytes
  name = pad6 (decimal n) ++ suffix

  size : length name ≡ length (pad6 (decimal n)) + length suffix
  size = length-append (pad6 (decimal n)) suffix

  -- A name is read back under its own suffix.
  parse_numbered-name : IsU64 n → parse_numbered name suffix ≡ some n
  unfolding parse_numbered
  parse_numbered-name fits =
      let count : length name - length suffix ≡ length (pad6 (decimal n)) = omega (arith, size) in
      let longer : leb (length name) (length suffix) ≡ false =
        ground (arith, size, length-pad6 n) in
      rw
        (
          longer,
          count,
          drop-append (length (pad6 (decimal n))) (pad6 (decimal n)) suffix refl,
          bytes_eq_self suffix,
          take-append (length (pad6 (decimal n))) (pad6 (decimal n)) suffix refl,
        )
        (parse_number-pad6 n fits)

  refused :
      (other : Bytes)
      → bytes_eq (drop (length name - length other) name) other ≡ false
      → parse_numbered name other ≡ none
  unfolding parse_numbered
  refused other differs = elim (Bool-cases (leb (length name) (length other))) [
    | inl short ↦ rw short refl
    | inr long ↦ rw (long, differs) refl
  ]

  -- A name has no other suffix of at most the same length with other last bytes.
  parse_numbered-shorter :
      (other : Bytes)
      → length other ≤ length suffix
      → bytes_eq (drop (length suffix - length other) suffix) other ≡ false
      → parse_numbered name other ≡ none
  parse_numbered-shorter other short differs =
      let k = length name - length other in
      let tail : drop k name ≡ drop (length suffix - length other) suffix =
        ap (λ (m : ℕ). drop m name) (omega (arith, size, short))
        ∙ sym (drop-drop (length suffix - length other) (length (pad6 (decimal n))) name)
        ∙ ap (drop (length suffix - length other))
            (drop-append (length (pad6 (decimal n))) (pad6 (decimal n)) suffix refl) in
      refused other (ap (λ (l : Bytes). bytes_eq l other) tail ∙ differs)

  parse_numbered-longer :
      (other : Bytes)
      → length other ≡ suc (length suffix)
      → bytes_eq (drop 1 other) suffix ≡ false
      → parse_numbered name other ≡ none
  parse_numbered-longer other long differs =
      let k = length name - length other in
      let tail : drop 1 (drop k name) ≡ suffix =
        drop-drop 1 k name
        ∙ ap (λ (m : ℕ). drop m name) (omega (arith, size, long, length-pad6 n))
        ∙ drop-append (length (pad6 (decimal n))) (pad6 (decimal n)) suffix refl in
      elim (Bool-cases (bytes_eq (drop k name) other)) [
        | inr no_match ↦ refused other no_match
        | inl matches ↦
            let p : drop 1 other ≡ suffix =
              ap (drop 1) (sym (eq_of_bytes_eq (drop k name) other matches)) ∙ tail in
            absurd (ground (arith, p, differs, bytes_eq_self suffix))
      ]

not_temporary :
    (n : ℕ) (suffix : Bytes)
    → length suffix ≤ 11
    → bytes_eq suffix (drop (12 - length suffix) (codes "MANIFEST.tmp")) ≡ false
    → bytes_eq (pad6 (decimal n) ++ suffix) (codes "MANIFEST.tmp") ≡ false
not_temporary n suffix short differs =
    elim (Bool-cases (bytes_eq (pad6 (decimal n) ++ suffix) (codes "MANIFEST.tmp"))) [
      | inr no_match ↦ no_match
      | inl matches ↦
          let p = eq_of_bytes_eq (pad6 (decimal n) ++ suffix) (codes "MANIFEST.tmp") matches in
          let front : 12 - length suffix ≡ length (pad6 (decimal n)) =
            omega (arith, ap length p, length-append (pad6 (decimal n)) suffix) in
          let q : suffix ≡ drop (12 - length suffix) (codes "MANIFEST.tmp") =
            sym (drop-append (12 - length suffix) (pad6 (decimal n)) suffix front)
            ∙ ap (drop (12 - length suffix)) p in
          absurd (
            cc
              (sym (ap (λ (l : Bytes). bytes_eq suffix l) (sym q) ∙ bytes_eq_self suffix), differs))
    ]

-- Of the files that the database named itself with a number of 64 bits, RemoveOrphanFiles takes
-- exactly the tables that are not live, the logs below the floor and the value logs that are not
-- live.
pub is_orphan-names :
    (live : List ℕ) (log_floor : ℕ) (live_vlogs : List ℕ) (n : ℕ)
    → IsU64 n
    → (is_orphan live log_floor live_vlogs (sst_file_name n) ≡ not (is_listed n live))
      × (is_orphan live log_floor live_vlogs (log_file_name n) ≡ ltb n log_floor)
      × (is_orphan live log_floor live_vlogs (file_name n) ≡ not (is_listed n live_vlogs))
unfolding is_orphan is_numbered sst_file_name log_file_name file_name drop bytes_eq
is_orphan-names live log_floor live_vlogs n fits =
    let sst = codes ".sst" in
    let log = codes ".log" in
    let vlog = codes ".vlog" in
    (
      rw
          (
            not_temporary n sst (omega arith) refl,
            parse_numbered-name n sst fits,
            parse_numbered-shorter n sst log (omega arith) refl,
            parse_numbered-longer n sst vlog (omega arith) refl,
          )
          (ground arith),
      rw
          (
            not_temporary n log (omega arith) refl,
            parse_numbered-name n log fits,
            parse_numbered-shorter n log sst (omega arith) refl,
            parse_numbered-longer n log vlog (omega arith) refl,
          )
          (ground arith),
      rw
          (
            not_temporary n vlog (omega arith) refl,
            parse_numbered-name n vlog fits,
            parse_numbered-shorter n vlog sst (omega arith) refl,
            parse_numbered-shorter n vlog log (omega arith) refl,
          )
          (ground arith),
    )
