-- ===== src/Server.antt =====
-- `RedisServer`, src/server.cpp and include/bedrockkv/server.h: the commands, over what the server
-- uses of a `DB`. The state of the database is passed from call to call.
pub mod Session
pub mod Connection
pub mod Pipeline
pub mod Flushing
use bedrockkv.Prelude.{
  ℕ, suc, ◌+◌, Bool, true, false, ◌&&◌, List, [], ◌∷◌, ◌++◌, map, Bytes, leb, ◌==◌, if◌then◌else◌,
}
use bedrockkv.Prelude.Order.{bytes_eq}
use bedrockkv.Prelude.Text.{codes}
use bedrockkv.Status.{Status, Result, done, failed, is_ok, code_eq, not_found_code}
use bedrockkv.Resp.Reply.{simple_string, error_reply, bulk_string, null_bulk, integer}

-- What the server calls of `DB`.
pub record Db (S : Type 0) : Type 0 where
  pub put : Bytes → Bytes → S → Status × S
  pub delete : Bytes → S → Status × S
  pub get : Bytes → S → Result Bytes

abbrev pub lower_byte : ℕ → ℕ
lower_byte c = if leb b'A' c && leb c b'Z' then c + 32 else c

unfoldable pub lower : Bytes → Bytes
lower s = map lower_byte s

abbrev pub wrong_arguments : Bytes → Bytes
wrong_arguments cmd =
    error_reply (codes "ERR wrong number of arguments for '" ++ (cmd ++ codes "' command"))

unfoldable pub found : Result Bytes → Bool
found (done value) = true
found (failed s) = false

module _ {S : Type 0} (db : Db S) where
  unfoldable pub ping : List Bytes → Bytes
  ping [] = simple_string (codes "PONG")
  ping (message ∷ rest) = bulk_string message

  unfoldable pub echo : List Bytes → Bytes
  echo (message ∷ []) = bulk_string message
  echo [] = wrong_arguments (codes "echo")
  echo (message ∷ a ∷ rest) = wrong_arguments (codes "echo")

  unfoldable pub put_reply : Status → Bytes
  put_reply s =
      if is_ok s then simple_string (codes "OK") else error_reply (codes "ERR " ++ s.message)

  unfoldable pub set : List Bytes → S → Bytes × S
  unfolding put_reply
  set (key ∷ value ∷ []) s = (put_reply (db.put key value s).0, (db.put key value s).1)
  set [] s = (wrong_arguments (codes "set"), s)
  set (key ∷ []) s = (wrong_arguments (codes "set"), s)
  set (key ∷ value ∷ a ∷ rest) s = (wrong_arguments (codes "set"), s)

  unfoldable pub get_reply : Result Bytes → Bytes
  get_reply (done value) = bulk_string value
  get_reply (failed e) =
      if code_eq e.code not_found_code then null_bulk else error_reply (codes "ERR " ++ e.message)

  unfoldable pub get : List Bytes → S → Bytes
  unfolding get_reply
  get (key ∷ []) s = get_reply (db.get key s)
  get [] s = wrong_arguments (codes "get")
  get (key ∷ a ∷ rest) s = wrong_arguments (codes "get")

  -- The loop of `del`: `Delete` is called on the keys that `Get` finds.
  unfoldable pub del_loop : List Bytes → ℕ → S → ℕ × S
  unfolding found
  del_loop [] removed s = (removed, s)
  del_loop (key ∷ keys) removed s =
      let deleted = db.delete key s in
      let gone = del_loop keys (if is_ok deleted.0 then suc removed else removed) deleted.1 in
      let kept = del_loop keys removed s in if found (db.get key s) then gone else kept

  unfoldable pub del : List Bytes → S → Bytes × S
  unfolding del_loop
  del [] s = (wrong_arguments (codes "del"), s)
  del (key ∷ keys) s = let (removed, s') = del_loop (key ∷ keys) 0 s in (integer removed, s')

  unfoldable pub exists_loop : List Bytes → ℕ → S → ℕ
  unfolding found
  exists_loop [] count s = count
  exists_loop (key ∷ keys) count s =
      exists_loop keys (if found (db.get key s) then suc count else count) s

  unfoldable pub exists : List Bytes → S → Bytes
  unfolding exists_loop
  exists [] s = wrong_arguments (codes "exists")
  exists (key ∷ keys) s = integer (exists_loop (key ∷ keys) 0 s)

  -- `Execute`, behind the lowercased name.
  unfoldable pub run_command : Bytes → List Bytes → S → Bytes × S
  unfolding ping echo set get del exists
  run_command cmd args s =
      if bytes_eq cmd (codes "ping")
      then (ping args, s)
      else if bytes_eq cmd (codes "echo")
      then (echo args, s)
      else if bytes_eq cmd (codes "set")
      then set args s
      else if bytes_eq cmd (codes "get")
      then (get args s, s)
      else if bytes_eq cmd (codes "del")
      then del args s
      else if bytes_eq cmd (codes "exists")
      then (exists args s, s)
      else (error_reply (codes "ERR unknown command '" ++ (cmd ++ codes "'")), s)

  -- `Execute`
  unfoldable pub execute : List Bytes → S → Bytes × S
  unfolding run_command
  execute [] s = (error_reply (codes "ERR empty command"), s)
  execute (name ∷ args) s = run_command (lower name) args s
