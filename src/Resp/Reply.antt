-- ===== src/Resp/Reply.antt =====
-- The reply encoders of src/resp.cpp.
use bedrockkv.Prelude.{ℕ, ◌==◌, ◌||◌, [], ◌∷◌, ◌++◌, map, Bytes, length, if◌then◌else◌}
use bedrockkv.Prelude.Text.{codes, decimal}

abbrev pub crlf : Bytes
crlf = 13 ∷ 10 ∷ []

unfoldable pub simple_string : Bytes → Bytes
simple_string s = b'+' ∷ (s ++ crlf)

abbrev pub sanitized : ℕ → ℕ
sanitized c = if c == 13 || c == 10 then 32 else c

unfoldable pub error_reply : Bytes → Bytes
error_reply msg = b'-' ∷ (map sanitized msg ++ crlf)

unfoldable pub bulk_string : Bytes → Bytes
bulk_string s = b'$' ∷ (decimal (length s) ++ (crlf ++ (s ++ crlf)))

unfoldable pub null_bulk : Bytes
null_bulk = codes "$-1" ++ crlf

unfoldable pub array_header : ℕ → Bytes
array_header n = b'*' ∷ (decimal n ++ crlf)

-- `Integer` of a count, which is never negative where the server calls it.
unfoldable pub integer : ℕ → Bytes
integer n = b':' ∷ (decimal n ++ crlf)
