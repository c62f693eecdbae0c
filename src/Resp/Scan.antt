-- ===== src/Resp/Scan.antt =====
-- Finding the end of a line, and what a client sees of an error reply.
use bedrockkv.Prelude.{
  ℕ, suc, ◌+◌, ◌^◌, ◌<◌, ◌≡◌, refl, ap, sym, ◌∙◌, subst, true, false, some, [], ◌∷◌, ◌++◌, map,
  append_assoc, arith, Bytes, All, length, take, take-append, byte_at, ◌==◌,
}
use bedrockkv.Prelude.Text.{
  is_digit, all_digits, decimal, digits_value-decimal, all_digits-decimal, length-decimal,
}
use bedrockkv.Resp.{shift, find_crlf, parse_digits}
use bedrockkv.Resp.Reply.{crlf, sanitized, error_reply}

-- A byte that can stand in a line.
abbrev pub Plain : ℕ → Type 0
Plain c = (c == 13) ≡ false

pub find_crlf-line :
    (line rest : Bytes) → All Plain line → find_crlf (line ++ (crlf ++ rest)) ≡ some (length line)
unfolding find_crlf byte_at shift
find_crlf-line [] rest h = refl
find_crlf-line (c ∷ line) rest h =
    let ih = find_crlf-line line rest h.1 in rw (h.0, ih) (ap some (omega arith))

all_digits-Plain : (ds : Bytes) → all_digits ds ≡ true → All Plain ds
unfolding all_digits is_digit
all_digits-Plain [] h = tt
all_digits-Plain (d ∷ ds) h = (ground (arith, h), all_digits-Plain ds (ground (arith, h)))

sanitized-Plain : (msg : Bytes) → All Plain (map sanitized msg)
sanitized-Plain [] = tt
sanitized-Plain (c ∷ msg) = (ground arith, sanitized-Plain msg)

length-map : (f : ℕ → ℕ) (xs : Bytes) → length (map f xs) ≡ length xs
length-map f [] = refl
length-map f (x ∷ xs) = omega (arith, length-map f xs)

-- A byte of which no reader takes a line to end.
abbrev pub IsInLine : ℕ → Type 0
IsInLine c = ((c == 13) ≡ false) × ((c == 10) ≡ false)

sanitized-IsInLine : (msg : Bytes) → All IsInLine (map sanitized msg)
sanitized-IsInLine [] = tt
sanitized-IsInLine (c ∷ msg) = ((ground arith, ground arith), sanitized-IsInLine msg)

line_end : (msg rest : Bytes) → find_crlf (error_reply msg ++ rest) ≡ some (1 + length msg)
unfolding error_reply
line_end msg rest =
    ap find_crlf (ap (λ (l : Bytes). b'-' ∷ l) (append_assoc (map sanitized msg) crlf rest))
    ∙ find_crlf-line (b'-' ∷ map sanitized msg) rest (refl, sanitized-Plain msg)
    ∙ ap some (omega (arith, length-map sanitized msg))

in_line : (msg rest : Bytes) → All IsInLine (take (suc (length msg)) (error_reply msg ++ rest))
unfolding error_reply take
in_line msg rest = (
  (refl, refl),
  subst (All IsInLine)
      (sym (
        ap (take (length msg)) (append_assoc (map sanitized msg) crlf rest)
        ∙ take-append (length msg) (map sanitized msg) (crlf ++ rest)
            (sym (length-map sanitized msg))))
      (sanitized-IsInLine msg),
)

-- The first line end in an error reply is the one that closes it, whatever the message holds, and
-- none of the bytes in front of it is a carriage return or a line feed.
pub find_crlf-error_reply :
    (msg rest : Bytes)
    → (find_crlf (error_reply msg ++ rest) ≡ some (1 + length msg))
      × All IsInLine (take (suc (length msg)) (error_reply msg ++ rest))
find_crlf-error_reply msg rest = (line_end msg rest, in_line msg rest)

-- The digits of a number are read back.
pub parse_digits-decimal : (n : ℕ) → n < 2 ^ 63 → parse_digits (decimal n) ≡ some n
unfolding parse_digits
parse_digits-decimal n h =
    rw (digits_value-decimal n, all_digits-decimal n) (ground (arith, length-decimal n))

pub decimal-Plain : (n : ℕ) → All Plain (decimal n)
decimal-Plain n = all_digits-Plain (decimal n) (all_digits-decimal n)
