-- ===== src/Resp/RoundTrip.antt =====
-- A request that a client sends as an array of bulk strings is parsed to its arguments.
use bedrockkv.Prelude.{
  ℕ, zero, suc, ◌+◌, ◌-◌, ◌≤◌, ◌<◌, ◌≡◌, refl, ap, sym, ◌∙◌, none, some, List, [], ◌∷◌, ◌++◌,
  append_assoc, append-nil, arith, Bytes, All, length, take, drop, byte_at, byte_at-drop, ◌==◌,
  if◌then◌else◌, length-append, length-drop, drop-append, take-append, drop-drop,
}
use bedrockkv.Prelude.Text.{decimal}
use bedrockkv.Resp.{
  Parser, Next, request, ParseStep, again, answer, max_multibulk, max_bulk_len, shift,
  find_crlf_from, parse_digits, header_count, multibulk_header, line_ends, idle_step, copied,
  bulk_data, bulk_length, bulk_header, bulk_step, parse_step, parse_continue, parse_loop, next,
}
use bedrockkv.Resp.Reply.{crlf, bulk_string, array_header}
use bedrockkv.Resp.Scan.{find_crlf-line, parse_digits-decimal, decimal-Plain}

abbrev pub bulks : List Bytes → Bytes
bulks [] = []
bulks (a ∷ args) = bulk_string a ++ bulks args

-- A request as a client writes it.
abbrev pub encode_request : List Bytes → Bytes
encode_request args = array_header (length args) ++ bulks args

abbrev pub Short : Bytes → Type 0
Short a = length a ≤ max_bulk_len

-- The parser behind one argument.
abbrev pub taken : Parser → ℕ → Bytes → ℕ → ParseStep
taken p left a data_pos =
    let spans = p.arg_spans ++ (data_pos, length a) ∷ [] in
    let pos = data_pos + length a + 2 in
    if left == 1
    then answer (request (copied p.buf spans))
        (record { buf = drop pos p.buf; multibulk = none; parse_pos = 0; arg_spans = [] })
    else again (record p { multibulk = some (left - 1); parse_pos = pos; arg_spans = spans })

module _ (p : Parser) (left : ℕ) (a rest : Bytes)
    (here : drop p.parse_pos p.buf ≡ bulk_string a ++ rest) (short : Short a) where
  abbrev digits : Bytes
  digits = decimal (length a)

  abbrev data_at : ℕ
  data_at = p.parse_pos + 1 + length digits + 2

  shape : bulk_string a ++ rest ≡ b'$' ∷ (digits ++ (crlf ++ (a ++ (crlf ++ rest))))
  unfolding bulk_string
  shape =
      ap (λ (l : Bytes). b'$' ∷ l)
        (append_assoc digits (crlf ++ (a ++ crlf)) rest
          ∙ ap (λ (l : Bytes). digits ++ (crlf ++ l)) (append_assoc a crlf rest))

  behind_dollar : drop (p.parse_pos + 1) p.buf ≡ digits ++ (crlf ++ (a ++ (crlf ++ rest)))
  behind_dollar =
      sym (drop-drop 1 p.parse_pos p.buf) ∙ ap (drop 1) (here ∙ shape) ∙ unfold drop in refl

  content : drop data_at p.buf ≡ a ++ (crlf ++ rest)
  content =
      ap (λ (n : ℕ). drop n p.buf) (omega arith)
      ∙ sym (drop-drop (length digits + 2) (p.parse_pos + 1) p.buf)
      ∙ ap (drop (length digits + 2))
          (behind_dollar ∙ sym (append_assoc digits crlf (a ++ (crlf ++ rest))))
      ∙ drop-append (length digits + 2) (digits ++ crlf) (a ++ (crlf ++ rest))
          (omega (arith, length-append digits crlf))

  behind : drop (data_at + length a) p.buf ≡ crlf ++ rest
  behind =
      sym (drop-drop (length a) data_at p.buf)
      ∙ ap (drop (length a)) content
      ∙ drop-append (length a) a (crlf ++ rest) refl

  behind_all : drop (data_at + length a + 2) p.buf ≡ rest
  behind_all =
      sym (drop-drop 2 (data_at + length a) p.buf) ∙ ap (drop 2) behind ∙ unfold drop in refl

  size : data_at + length a + 2 ≤ length p.buf
  size = omega (arith, ap length behind, length-drop (data_at + length a) p.buf)

  dollar : byte_at p.buf p.parse_pos ≡ b'$'
  dollar =
      ap (byte_at p.buf) (omega arith)
      ∙ sym (byte_at-drop p.parse_pos 0 p.buf)
      ∙ ap (λ (l : Bytes). byte_at l 0) (here ∙ shape)
      ∙ unfold byte_at in refl

  return_byte : byte_at p.buf (data_at + length a) ≡ 13
  return_byte =
      ap (byte_at p.buf) (omega arith)
      ∙ sym (byte_at-drop (data_at + length a) 0 p.buf)
      ∙ ap (λ (l : Bytes). byte_at l 0) behind
      ∙ unfold byte_at in refl

  newline_byte : byte_at p.buf (data_at + length a + 1) ≡ 10
  newline_byte =
      sym (byte_at-drop (data_at + length a) 1 p.buf)
      ∙ ap (λ (l : Bytes). byte_at l 1) behind
      ∙ unfold byte_at in refl

  line_end : find_crlf_from p.buf (p.parse_pos + 1) ≡ some (p.parse_pos + 1 + length digits)
  unfolding find_crlf_from shift
  line_end =
      rw (behind_dollar, find_crlf-line digits (a ++ (crlf ++ rest)) (decimal-Plain (length a)))
        refl

  length_field :
      parse_digits
        (take (p.parse_pos + 1 + length digits - p.parse_pos - 1) (drop (p.parse_pos + 1) p.buf))
      ≡ some (length a)
  length_field =
      let count : p.parse_pos + 1 + length digits - p.parse_pos - 1 ≡ length digits = omega arith in
      rw
        (
          count,
          behind_dollar,
          take-append (length digits) digits (crlf ++ (a ++ (crlf ++ rest))) refl,
        )
        (parse_digits-decimal (length a) (omega (arith, short)))

  -- At a whole bulk string the round takes the argument.
  pub bulk_step-bulk_string : bulk_step p left ≡ taken p left a data_at
  unfolding bulk_step bulk_header bulk_length bulk_data
  bulk_step-bulk_string =
      rw (dollar, line_end, length_field, return_byte, newline_byte) (ground (arith, size, short))

abbrev pub between : Bytes → Parser
between rest = record { buf = rest; multibulk = none; parse_pos = 0; arg_spans = [] }

loop_again :
    (fuel : ℕ) (p q : Parser) → parse_step p ≡ again q → parse_loop (suc fuel) p ≡ parse_loop fuel q
unfolding parse_loop parse_continue
loop_again fuel p q h = rw h refl

pub loop_answer :
    (fuel : ℕ) (p q : Parser) (r : Next)
    → parse_step p ≡ answer r q
    → parse_loop (suc fuel) p ≡ (r, q)
unfolding parse_loop parse_continue
loop_answer fuel p q r h = rw h refl

copied-snoc :
    (buf : Bytes) (spans : List (ℕ × ℕ)) (s : ℕ × ℕ)
    → copied buf (spans ++ s ∷ []) ≡ copied buf spans ++ take s.1 (drop s.0 buf) ∷ []
copied-snoc buf [] s = refl
copied-snoc buf (x ∷ spans) s =
    ap (λ (l : List Bytes). take x.1 (drop x.0 buf) ∷ l) (copied-snoc buf spans s)

in_multibulk : (p : Parser) (left : ℕ) → p.multibulk ≡ some left → parse_step p ≡ bulk_step p left
unfolding parse_step
in_multibulk p left h = rw h refl

-- The arguments that are left are taken in turn.
parse_loop-bulks :
    (fuel : ℕ) (p : Parser) (a : Bytes) (args : List Bytes) (rest : Bytes)
    → p.multibulk ≡ some (length (a ∷ args))
    → drop p.parse_pos p.buf ≡ bulks (a ∷ args) ++ rest
    → All Short (a ∷ args)
    → length args < fuel
    → parse_loop fuel p ≡ (request (copied p.buf p.arg_spans ++ a ∷ args), between rest)
parse_loop-bulks zero p a args rest count here short enough = absurd (omega arith)
parse_loop-bulks (suc fuel) p a [] rest count here short enough =
    let here' : drop p.parse_pos p.buf ≡ bulk_string a ++ rest =
      here ∙ ap (λ (l : Bytes). l ++ rest) (append-nil (bulk_string a)) in
    let d : ℕ = p.parse_pos + 1 + length (decimal (length a)) + 2 in
    let arg : take (length a) (drop d p.buf) ≡ a =
      ap (take (length a)) (content p 1 a rest here' short.0)
      ∙ take-append (length a) a (crlf ++ rest) refl in
    loop_answer fuel p (between rest) _ (
      in_multibulk p 1 count
      ∙ bulk_step-bulk_string p 1 a rest here' short.0
      ∙ rw (copied-snoc p.buf p.arg_spans (d, length a), arg, behind_all p 1 a rest here' short.0)
          refl)
parse_loop-bulks (suc fuel) p a (b ∷ args) rest count here short enough =
    let left : ℕ = length (a ∷ b ∷ args) in
    let more : Bytes = bulks (b ∷ args) ++ rest in
    let here' : drop p.parse_pos p.buf ≡ bulk_string a ++ more =
      here ∙ append_assoc (bulk_string a) (bulks (b ∷ args)) rest in
    let d : ℕ = p.parse_pos + 1 + length (decimal (length a)) + 2 in
    let q : Parser = record p {
      multibulk = some (left - 1);
      parse_pos = d + length a + 2;
      arg_spans = p.arg_spans ++ (d, length a) ∷ [];
    } in
    let arg : take (length a) (drop d p.buf) ≡ a =
      ap (take (length a)) (content p left a more here' short.0)
      ∙ take-append (length a) a (crlf ++ more) refl in
    let several : taken p left a d ≡ again q = ground arith in
    let got : copied p.buf (p.arg_spans ++ (d, length a) ∷ [])
        ≡ copied p.buf p.arg_spans ++ a ∷ [] =
      copied-snoc p.buf p.arg_spans (d, length a)
      ∙ ap (λ (x : Bytes). copied p.buf p.arg_spans ++ x ∷ []) arg in
    loop_again fuel p q
      (in_multibulk p left count ∙ bulk_step-bulk_string p left a more here' short.0 ∙ several)
    ∙ parse_loop-bulks fuel q b args rest (ap some (omega arith))
        (behind_all p left a more here' short.0) short.1 (omega (arith, enough))
    ∙ ap (λ (l : List Bytes). (request l, between rest))
        (ap (λ (l : List Bytes). l ++ b ∷ args) got
          ∙ append_assoc (copied p.buf p.arg_spans) (a ∷ []) (b ∷ args))

length-bulk_string : (a : Bytes) → 1 ≤ length (bulk_string a)
unfolding bulk_string
length-bulk_string a = omega arith

length-bulks : (args : List Bytes) → length args ≤ length (bulks args)
length-bulks [] = omega arith
length-bulks (a ∷ args) =
    omega
      (arith, length-bulks args, length-append (bulk_string a) (bulks args), length-bulk_string a)

-- The parser behind the header of an array of `n`.
abbrev pub opened : ℕ → Bytes → Parser
opened n more = record {
  buf = array_header n ++ more;
  multibulk = some n;
  parse_pos = length (decimal n) + 1 + 2;
  arg_spans = [];
}

module _ (n : ℕ) (more : Bytes) (some_args : 1 ≤ n) (few : n ≤ max_multibulk) where
  header_shape : array_header n ++ more ≡ b'*' ∷ (decimal n ++ (crlf ++ more))
  unfolding array_header
  header_shape = ap (λ (l : Bytes). b'*' ∷ l) (append_assoc (decimal n) crlf more)

  header_end :
      find_crlf_from (b'*' ∷ (decimal n ++ (crlf ++ more))) 1 ≡ some (1 + length (decimal n))
  unfolding find_crlf_from shift drop
  header_end = rw (find_crlf-line (decimal n) more (decimal-Plain n)) refl

  header_field :
      parse_digits (take (1 + length (decimal n) - 1) (decimal n ++ (crlf ++ more))) ≡ some n
  header_field =
      let count : 1 + length (decimal n) - 1 ≡ length (decimal n) = omega arith in
      rw (count, take-append (length (decimal n)) (decimal n) (crlf ++ more) refl)
        (parse_digits-decimal n (omega (arith, few)))

  step_header : parse_step (between (array_header n ++ more)) ≡ again (opened n more)
  unfolding parse_step idle_step line_ends multibulk_header header_count drop byte_at
  step_header = rw (header_shape, header_end, header_field) (ground (arith, few, some_args))

  behind_header : drop (length (decimal n) + 1 + 2) (array_header n ++ more) ≡ more
  behind_header =
      drop-append (length (decimal n) + 1 + 2) (array_header n) more
        (unfold array_header in omega (arith, length-append (decimal n) crlf))

-- A parser between requests whose buffer starts with an array of bulk strings, of 1 to 1,048,576
-- arguments of at most 512 MiB each, returns exactly the arguments and keeps the bytes behind the
-- request.
pub next-encode_request :
    (a : Bytes) (args : List Bytes) (rest : Bytes)
    → length (a ∷ args) ≤ max_multibulk
    → All Short (a ∷ args)
    → next (between (encode_request (a ∷ args) ++ rest)) ≡ (request (a ∷ args), between rest)
unfolding next
next-encode_request a args rest few short =
    let n : ℕ = length (a ∷ args) in
    let more : Bytes = bulks (a ∷ args) ++ rest in
    let assoc : encode_request (a ∷ args) ++ rest ≡ array_header n ++ more =
      append_assoc (array_header n) (bulks (a ∷ args)) rest in
    let fuel : length (array_header n ++ more) + 1 ≡ suc (length (array_header n ++ more)) =
      omega arith in
    rw (assoc, fuel)
      (loop_again (length (array_header n ++ more)) (between (array_header n ++ more))
          (opened n more) (step_header n more (omega arith) few)
        ∙ parse_loop-bulks (length (array_header n ++ more)) (opened n more) a args rest refl
            (behind_header n more (omega arith) few) short
            (omega (
              arith,
              length-append (array_header n) more,
              length-append (bulks (a ∷ args)) rest,
              length-bulks (a ∷ args),
            )))
