-- ===== src/Status.antt =====
-- `Status`, include/bedrockkv/status.h and src/status.cpp.
use bedrockkv.Prelude.{ℕ, Bool, ◌&&◌, ◌||◌, [], ◌++◌, Bytes, ◌==◌}
use bedrockkv.Prelude.Order.{bytes_eq}
use bedrockkv.Prelude.Text.{codes}

pub data Code : Type 0 where
  ok_code not_found_code corruption_code io_error_code invalid_argument_code not_supported_code :
      Code

pub record Status : Type 0 where
  pub code : Code
  pub message : Bytes

abbrev pub ok : Status
ok = record { code = ok_code; message = [] }

abbrev pub not_found : Bytes → Status
not_found msg = record { code = not_found_code; message = msg }

abbrev pub corruption : Bytes → Status
corruption msg = record { code = corruption_code; message = msg }

abbrev pub io_error : Bytes → Status
io_error msg = record { code = io_error_code; message = msg }

abbrev pub invalid_argument : Bytes → Status
invalid_argument msg = record { code = invalid_argument_code; message = msg }

abbrev pub not_supported : Bytes → Status
not_supported msg = record { code = not_supported_code; message = msg }

-- The numbers of the enumeration, by which codes are compared.
abbrev pub code_number : Code → ℕ
code_number ok_code = 0
code_number not_found_code = 1
code_number corruption_code = 2
code_number io_error_code = 3
code_number invalid_argument_code = 4
code_number not_supported_code = 5

unfoldable pub code_eq : Code → Code → Bool
code_eq a b = code_number a == code_number b

-- `s.ok()`
unfoldable pub is_ok : Status → Bool
unfolding code_eq
is_ok s = code_eq s.code ok_code

-- `operator==`
unfoldable pub status_eq : Status → Status → Bool
unfolding is_ok code_eq
status_eq a b = code_eq a.code b.code && (is_ok a || bytes_eq a.message b.message)

unfoldable pub to_string : Status → Bytes
to_string s = prefix s.code
  where
    prefix : Code → Bytes
    prefix ok_code = codes "OK"
    prefix not_found_code = codes "NotFound: " ++ s.message
    prefix corruption_code = codes "Corruption: " ++ s.message
    prefix io_error_code = codes "IOError: " ++ s.message
    prefix invalid_argument_code = codes "InvalidArgument: " ++ s.message
    prefix not_supported_code = codes "NotSupported: " ++ s.message

-- A call that returns a `Status` and, if it is Ok, a result.
pub data Result {ℓ} (A : Type ℓ) : Type ℓ where
  done : A → Result A
  failed : Status → Result A
