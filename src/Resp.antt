-- ===== src/Resp.antt =====
-- The RESP2 codec, include/bedrockkv/resp.h and src/resp.cpp: the incremental parser of requests.
pub mod Reply
pub mod Scan
pub mod RoundTrip
pub mod Inline
use bedrockkv.Prelude.{
  ℕ, zero, suc, ◌+◌, ◌-◌, ◌*◌, ◌^◌, Bool, true, false, not, ◌&&◌, ◌||◌, Option, none, some, List,
  [], ◌∷◌, ◌++◌, map, Bytes, length, take, drop, byte_at, ltb, leb, ◌==◌, if◌then◌else◌,
}
use bedrockkv.Prelude.Text.{codes, all_digits, digits_value}

abbrev pub max_multibulk : ℕ
max_multibulk = 1024 * 1024

abbrev pub max_inline_line : ℕ
max_inline_line = 64 * 1024

abbrev pub max_bulk_len : ℕ
max_bulk_len = 536870912

-- `multibulk` is `none` where `multibulk_` is -1.
pub record Parser : Type 0 where
  pub buf : Bytes
  pub multibulk : Option ℕ
  pub parse_pos : ℕ
  pub arg_spans : List (ℕ × ℕ)

pub data Next : Type 0 where
  request : List Bytes → Next
  need_more : Next
  protocol_error : Bytes → Next
  no_fuel : Next

-- A round of the loop of `Parser::Next` goes on or returns.
pub data ParseStep : Type 0 where
  again : Parser → ParseStep
  answer : Next → Parser → ParseStep

abbrev pub new_parser : Parser
new_parser = record { buf = []; multibulk = none; parse_pos = 0; arg_spans = [] }

unfoldable pub feed : Bytes → Parser → Parser
feed bytes p = record p { buf = p.buf ++ bytes }

abbrev pub reset : Parser → Parser
reset p = new_parser

-- `std::from_chars` into a `long long` fails on a number out of its range.
unfoldable pub parse_digits : Bytes → Option ℕ
parse_digits s =
    if length s == 0
    then none
    else if not (all_digits s)
    then none
    else if ltb (digits_value 0 s) (2 ^ 63)
    then some (digits_value 0 s)
    else none

-- A place found further on.
unfoldable pub shift : ℕ → Option ℕ → Option ℕ
shift by none = none
shift by (some i) = some (by + i)

-- `find("\r\n")` and `find('\n')`
unfoldable pub find_crlf : Bytes → Option ℕ
find_crlf [] = none
find_crlf (c ∷ cs) =
    let rest = find_crlf cs in if c == 13 && byte_at cs 0 == 10 then some 0 else shift 1 rest

unfoldable pub find_newline : Bytes → Option ℕ
find_newline [] = none
find_newline (c ∷ cs) = let rest = find_newline cs in if c == 10 then some 0 else shift 1 rest

-- `buf_.find("\r\n", from)`
unfoldable pub find_crlf_from : Bytes → ℕ → Option ℕ
find_crlf_from buf from = shift from (find_crlf (drop from buf))

-- How many line ends stand in front.
unfoldable pub line_ends : Bytes → ℕ
line_ends [] = 0
line_ends (c ∷ cs) = let rest = line_ends cs in if c == 13 || c == 10 then suc rest else 0

unfoldable pub header_count : Parser → ℕ → Option ℕ → ParseStep
header_count p nl none =
    answer (protocol_error (codes "Protocol error: invalid multibulk length")) p
header_count p nl (some n) =
    if ltb max_multibulk n
    then answer (protocol_error (codes "Protocol error: invalid multibulk length")) p
    else if n == 0
    then again (record p { buf = drop (nl + 2) p.buf; parse_pos = 0 })
    else again (record p { multibulk = some n; arg_spans = []; parse_pos = nl + 2 })

unfoldable pub multibulk_header : Parser → Option ℕ → ParseStep
unfolding header_count
multibulk_header p none =
    if ltb 32 (length p.buf)
    then answer (protocol_error (codes "Protocol error: too big multibulk length")) p
    else answer need_more p
multibulk_header p (some nl) = header_count p nl (parse_digits (take (nl - 1) (drop 1 p.buf)))

abbrev pub is_blank : ℕ → Bool
is_blank c = c == 32 || c == 9

unfoldable pub skip_blanks : Bytes → Bytes
skip_blanks [] = []
skip_blanks (c ∷ cs) = let rest = skip_blanks cs in if is_blank c then rest else c ∷ cs

unfoldable pub word : Bytes → Bytes
word [] = []
word (c ∷ cs) = let rest = word cs in if is_blank c then [] else c ∷ rest

-- The loop of `NextInline` over what is left of the line. Each round takes a byte at least.
unfoldable pub words : ℕ → Bytes → List Bytes
words zero line = []
words (suc fuel) line =
    let from = skip_blanks line in
    let rest = words fuel (drop (length (word from)) from) in
    if length line == 0 then [] else if ltb 0 (length (word from)) then word from ∷ rest else rest

unfoldable pub next_inline : Parser → Option ℕ → Next × Parser
unfolding words
next_inline p none =
    if ltb max_inline_line (length p.buf)
    then (protocol_error (codes "Protocol error: too big inline request"), p)
    else (need_more, p)
next_inline p (some nl) =
    let line_end = if ltb 0 nl && byte_at p.buf (nl - 1) == 13 then nl - 1 else nl in
    let args = words line_end (take line_end p.buf) in
    let q = record p { buf = drop (nl + 1) p.buf; parse_pos = 0 } in
    if length args == 0 then (need_more, q) else (request args, q)

unfoldable pub idle_step : Parser → ParseStep
unfolding multibulk_header next_inline
idle_step p =
    let n = p.parse_pos + line_ends (drop p.parse_pos p.buf) in
    let q = record p { buf = drop n p.buf; parse_pos = 0 } in
    if length q.buf == 0
    then answer need_more q
    else if byte_at q.buf 0 == b'*'
    then multibulk_header q (find_crlf_from q.buf 1)
    else (let (r, q') = next_inline q (find_newline q.buf) in answer r q')

-- The arguments, copied out of the buffer.
abbrev pub copied : Bytes → List (ℕ × ℕ) → List Bytes
copied buf spans = map (λ (s : ℕ × ℕ). take s.1 (drop s.0 buf)) spans

-- The bytes of one argument, when its length is known.
unfoldable pub bulk_data : Parser → ℕ → ℕ → ℕ → ParseStep
bulk_data p left data_pos len =
    let spans = p.arg_spans ++ (data_pos, len) ∷ [] in
    let pos = data_pos + len + 2 in
    if ltb (length p.buf) (data_pos + len + 2)
    then answer need_more p
    else if not (byte_at p.buf (data_pos + len) == 13)
        || not (byte_at p.buf (data_pos + len + 1) == 10)
    then answer (protocol_error (codes "Protocol error: bulk string missing terminator")) p
    else if left == 1
    then answer (request (copied p.buf spans))
        (record { buf = drop pos p.buf; multibulk = none; parse_pos = 0; arg_spans = [] })
    else again (record p { multibulk = some (left - 1); parse_pos = pos; arg_spans = spans })

unfoldable pub bulk_length : Parser → ℕ → ℕ → Option ℕ → ParseStep
unfolding bulk_data
bulk_length p left nl none = answer (protocol_error (codes "Protocol error: invalid bulk length")) p
bulk_length p left nl (some len) =
    if ltb max_bulk_len len
    then answer (protocol_error (codes "Protocol error: invalid bulk length")) p
    else bulk_data p left (nl + 2) len

unfoldable pub bulk_header : Parser → ℕ → Option ℕ → ParseStep
unfolding bulk_length
bulk_header p left none =
    if ltb 32 (length p.buf - p.parse_pos)
    then answer (protocol_error (codes "Protocol error: invalid bulk length")) p
    else answer need_more p
bulk_header p left (some nl) =
    bulk_length p left nl
      (parse_digits (take (nl - p.parse_pos - 1) (drop (p.parse_pos + 1) p.buf)))

unfoldable pub bulk_step : Parser → ℕ → ParseStep
unfolding bulk_header
bulk_step p left =
    if leb (length p.buf) p.parse_pos
    then answer need_more p
    else if not (byte_at p.buf p.parse_pos == b'$')
    then answer
        (protocol_error
          (codes "Protocol error: expected '$', got '" ++ (byte_at p.buf p.parse_pos ∷ codes "'")))
        p
    else bulk_header p left (find_crlf_from p.buf (p.parse_pos + 1))

unfoldable pub parse_step : Parser → ParseStep
parse_step p = on p.multibulk
  where
    on : Option ℕ → ParseStep
    on none = idle_step p
    on (some left) = bulk_step p left

unfoldable pub parse_continue : (Parser → Next × Parser) → ParseStep → Next × Parser
parse_continue next (again p) = next p
parse_continue next (answer r p) = (r, p)

unfoldable pub parse_loop : ℕ → Parser → Next × Parser
unfolding parse_continue
parse_loop zero p = (no_fuel, p)
parse_loop (suc fuel) p = parse_continue (parse_loop fuel) (parse_step p)

-- `Parser::Next`. Each round but the last takes a byte of what is not parsed yet.
unfoldable pub next : Parser → Next × Parser
unfolding parse_loop
next p = parse_loop (length p.buf + 1) p
