-- ===== src/Tests/Requests.antt =====
-- RESP requests and replies at concrete inputs.
use bedrockkv.Prelude.{◌+◌, suc, All, take, ◌≡◌, refl, [], ◌∷◌, ◌++◌, some, arith, length}
use bedrockkv.Prelude.Text.{codes}
use bedrockkv.Resp.{request, need_more, find_crlf, next}
use bedrockkv.Resp.Reply.{crlf, error_reply}
use bedrockkv.Resp.Scan.{IsInLine, find_crlf-error_reply}
use bedrockkv.Resp.RoundTrip.{encode_request, between, next-encode_request}
use bedrockkv.Resp.Inline.{next-blank_line}

next-encode_request_example :
    next (between (encode_request (codes "GET" ∷ codes "k" ∷ []) ++ codes "*1"))
    ≡ (request (codes "GET" ∷ codes "k" ∷ []), between (codes "*1"))
next-encode_request_example =
    next-encode_request (codes "GET") (codes "k" ∷ []) (codes "*1") (omega arith) (omega arith)

-- A whole request stands behind the line of blanks.
next-blank_line_example :
    next (between (codes "  " ++ 10 ∷ (codes "PING" ++ crlf)))
    ≡ (need_more, between (codes "PING" ++ crlf))
next-blank_line_example = next-blank_line 32 (32 ∷ []) (codes "PING" ++ crlf) (refl, (refl, tt))

find_crlf-error_reply_example :
    (find_crlf (error_reply (codes "a" ++ crlf ++ codes "b") ++ codes ":1")
      ≡ some (1 + length (codes "a" ++ crlf ++ codes "b")))
    × All IsInLine (
        take
          (suc (length (codes "a" ++ crlf ++ codes "b")))
          (error_reply (codes "a" ++ crlf ++ codes "b") ++ codes ":1"))
find_crlf-error_reply_example = find_crlf-error_reply (codes "a" ++ crlf ++ codes "b") (codes ":1")
