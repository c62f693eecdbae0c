-- ===== src/Server/Session.antt =====
-- What the commands of `RedisServer::Execute` (src/server.cpp) promise: each acts on a map from keys
-- to values.
pub mod Refinement
use bedrockkv.Prelude.{
  ℕ, zero, suc, ◌+◌, ◌≡◌, refl, ap, sym, ◌∙◌, Bool, true, false, not, ◌&&◌, ◌||◌, inl, inr,
  Bool-cases, Option-cases, Option, none, some, List, [], ◌∷◌, ◌++◌, map, arith, Bytes, ◌==◌,
  if◌then◌else◌,
}
use mathlib.Core.Path.{fun_ext}
use bedrockkv.Prelude.Order.{bytes_eq, bytes_eq_self, eq_of_bytes_eq}
use bedrockkv.Prelude.Text.{codes}
use bedrockkv.Status.{Status, Result, done, failed, is_ok, not_found, code_eq}
use bedrockkv.Resp.Reply.{simple_string, error_reply, bulk_string, null_bulk, integer}
use bedrockkv.Server.{
  Db, lower, wrong_arguments, found, ping, echo, put_reply, set, get_reply, get, del_loop, del,
  exists_loop, exists, run_command, execute,
}

abbrev pub Contents : Type 0
Contents = Bytes → Option Bytes

-- A database whose calls succeed, seen as a map.
pub record Serves {S : Type 0} (db : Db S) (contents : S → Contents) : Type 0 where
  pub put_succeeds : (key value : Bytes) (s : S) → is_ok (db.put key value s).0 ≡ true
  pub put_sets :
      (key value : Bytes) (s : S) (x : Bytes)
      → contents (db.put key value s).1 x ≡ (if bytes_eq x key then some value else contents s x)
  pub delete_succeeds : (key : Bytes) (s : S) → is_ok (db.delete key s).0 ≡ true
  pub delete_clears :
      (key : Bytes) (s : S) (x : Bytes)
      → contents (db.delete key s).1 x ≡ (if bytes_eq x key then none else contents s x)
  pub get_finds :
      (key value : Bytes) (s : S) → contents s key ≡ some value → db.get key s ≡ done value
  pub get_misses :
      (key : Bytes) (s : S)
      → contents s key ≡ none
      → (msg : Bytes) × (db.get key s ≡ failed (not_found msg))

-- Replies before they are encoded.
pub data Answer : Type 0 where
  text : Bytes → Answer
  value : Bytes → Answer
  nothing : Answer
  count : ℕ → Answer
  error : Bytes → Answer

unfoldable pub wire : Answer → Bytes
wire (text t) = simple_string t
wire (value v) = bulk_string v
wire nothing = null_bulk
wire (count n) = integer n
wire (error e) = error_reply e

unfoldable pub is_present : Option Bytes → Bool
is_present none = false
is_present (some v) = true

unfoldable pub is_among : Bytes → List Bytes → Bool
is_among key [] = false
is_among key (k ∷ ks) = bytes_eq key k || is_among key ks

-- How many different keys of the list the map holds: each counts where it stands last.
unfoldable pub distinct_present : List Bytes → Contents → ℕ
distinct_present [] m = 0
distinct_present (k ∷ ks) m =
    (if is_present (m k) && not (is_among k ks) then 1 else 0) + distinct_present ks m

-- How many keys of the list the map holds, repetitions counted.
unfoldable pub all_present : List Bytes → Contents → ℕ
all_present [] m = 0
all_present (k ∷ ks) m = (if is_present (m k) then 1 else 0) + all_present ks m

unfoldable pub without : List Bytes → Contents → Contents
without keys m x = if is_among x keys then none else m x

abbrev pub arity_error : Bytes → Answer
arity_error cmd = error (codes "ERR wrong number of arguments for '" ++ (cmd ++ codes "' command"))

unfoldable pub looked_up : Option Bytes → Answer
looked_up none = nothing
looked_up (some v) = value v

unfoldable pub expect_ping : List Bytes → Answer
expect_ping [] = text (codes "PONG")
expect_ping (message ∷ rest) = value message

unfoldable pub expect_echo : List Bytes → Answer
expect_echo (message ∷ []) = value message
expect_echo [] = arity_error (codes "echo")
expect_echo (message ∷ a ∷ rest) = arity_error (codes "echo")

unfoldable pub expect_set : List Bytes → Contents → Answer × Contents
expect_set (key ∷ v ∷ []) m =
    (text (codes "OK"), λ (x : Bytes). if bytes_eq x key then some v else m x)
expect_set [] m = (arity_error (codes "set"), m)
expect_set (key ∷ []) m = (arity_error (codes "set"), m)
expect_set (key ∷ v ∷ a ∷ rest) m = (arity_error (codes "set"), m)

unfoldable pub expect_get : List Bytes → Contents → Answer
expect_get (key ∷ []) m = looked_up (m key)
expect_get [] m = arity_error (codes "get")
expect_get (key ∷ a ∷ rest) m = arity_error (codes "get")

unfoldable pub expect_del : List Bytes → Contents → Answer × Contents
expect_del [] m = (arity_error (codes "del"), m)
expect_del (key ∷ keys) m = (count (distinct_present (key ∷ keys) m), without (key ∷ keys) m)

unfoldable pub expect_exists : List Bytes → Contents → Answer
expect_exists [] m = arity_error (codes "exists")
expect_exists (key ∷ keys) m = count (all_present (key ∷ keys) m)

unfoldable pub expect_command : Bytes → List Bytes → Contents → Answer × Contents
expect_command cmd args m =
    if bytes_eq cmd (codes "ping")
    then (expect_ping args, m)
    else if bytes_eq cmd (codes "echo")
    then (expect_echo args, m)
    else if bytes_eq cmd (codes "set")
    then expect_set args m
    else if bytes_eq cmd (codes "get")
    then (expect_get args m, m)
    else if bytes_eq cmd (codes "del")
    then expect_del args m
    else if bytes_eq cmd (codes "exists")
    then (expect_exists args m, m)
    else (error (codes "ERR unknown command '" ++ (cmd ++ codes "'")), m)

-- The reply to a request and the map behind it.
unfoldable pub expect : List Bytes → Contents → Answer × Contents
expect [] m = (error (codes "ERR empty command"), m)
expect (name ∷ args) m = expect_command (lower name) args m

unfoldable pub expect_all : List (List Bytes) → Contents → List Answer × Contents
expect_all [] m = ([], m)
expect_all (args ∷ requests) m =
    let here = expect args m in
    let (answers, m') = expect_all requests here.1 in (here.0 ∷ answers, m')

-- The requests of a client in turn, and the replies.
unfoldable pub execute_all : {S : Type 0} → Db S → List (List Bytes) → S → List Bytes × S
execute_all db [] s = ([], s)
execute_all db (args ∷ requests) s =
    let here = execute db args s in
    let (replies, s') = execute_all db requests here.1 in (here.0 ∷ replies, s')
