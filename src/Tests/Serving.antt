-- ===== src/Tests/Serving.antt =====
-- The server's commands and connections at concrete inputs.
use bedrockkv.Prelude.{
  ◌≡◌, refl, true, false, Option, none, some, List, [], ◌∷◌, ◌++◌, map, arith, Bytes, length, ◌+◌,
  ◌-◌, ◌≤◌, ◌/◌, ltb, drop, if◌then◌else◌,
}
use bedrockkv.Prelude.Order.{bytes_eq}
use bedrockkv.Prelude.Text.{codes, decimal, decimal_loop}
use bedrockkv.Status.{Result, done, failed, ok, not_found, is_ok, code_eq}
use bedrockkv.Resp.Reply.{array_header, simple_string, bulk_string, integer}
use bedrockkv.Resp.RoundTrip.{encode_request, between}
use bedrockkv.Server.{
  Db, execute, run_command, lower, set, put_reply, get, get_reply, del, del_loop, found,
}
use bedrockkv.Server.Session.{Contents, Serves, wire, execute_all, expect_all}
use bedrockkv.Server.Session.Refinement.{execute_all-expect_all}
use bedrockkv.Server.Connection.{
  Conn, max_out_bytes, backlog, SendEvent, sent, send_again, flush_out, on_chunk, flush, read_on,
}
use bedrockkv.Server.Flushing.{stream, flush_out-stream}
use bedrockkv.Server.Pipeline.{flatten, encode_requests, on_chunk-execute_all}

-- A database that is the map it is seen as.
abbrev answered : Option Bytes → Result Bytes
answered none = failed (not_found [])
answered (some v) = done v

abbrev shelf : Db Contents
shelf = record {
  put = λ key value m. (ok, λ (x : Bytes). if bytes_eq x key then some value else m x);
  delete = λ key m. (ok, λ (x : Bytes). if bytes_eq x key then none else m x);
  get = λ key m. answered (m key);
}

abbrev nothing_held : Contents
nothing_held = λ (x : Bytes). none

shelf-Serves : Serves shelf (λ (m : Contents). m)
unfolding is_ok code_eq
shelf-Serves = record {
  put_succeeds = λ key value m. refl;
  put_sets = λ key value m x. refl;
  delete_succeeds = λ key m. refl;
  delete_clears = λ key m x. refl;
  get_finds = λ key value m h. rw h refl;
  get_misses = λ key m h. ([], rw h refl);
}

abbrev requests : List (List Bytes)
requests =
    (codes "SET" ∷ codes "k" ∷ codes "v" ∷ [])
    ∷ (codes "get" ∷ codes "k" ∷ [])
    ∷ (codes "DEL" ∷ codes "k" ∷ codes "k" ∷ [])
    ∷ []

execute_all-expect_all_example :
    ((execute_all shelf requests nothing_held).0 ≡ map wire (expect_all requests nothing_held).0)
    × ((execute_all shelf requests nothing_held).1 ≡ (expect_all requests nothing_held).1)
execute_all-expect_all_example =
    execute_all-expect_all shelf (λ (m : Contents). m) shelf-Serves requests nothing_held

abbrev waiting : Conn
waiting = record {
  parser = between [];
  out = codes "+OK" ++ codes "+OK";
  out_off = 1;
  closing = false;
}

abbrev answers : List SendEvent
answers = sent 2 ∷ send_again ∷ []

flush_out-stream_example :
    (stream (flush_out true answers [] waiting) ≡ [] ++ drop waiting.out_off waiting.out)
    × ((flush_out true answers [] waiting).wait_writable ≡ false
        → (flush_out true answers [] waiting).alive ≡ true
        → ((flush_out true answers [] waiting).conn.out ≡ []) × (waiting.closing ≡ false))
flush_out-stream_example = flush_out-stream true answers [] waiting

-- The replies are "+OK", the value and a count.
replies_fit :
    length (codes "x") - 0 + length (flatten (execute_all shelf requests nothing_held).0)
    ≤ max_out_bytes
unfolding execute_all execute run_command lower set put_reply get get_reply del del_loop found is_ok
    code_eq simple_string bulk_string integer decimal decimal_loop bytes_eq
replies_fit = omega arith

on_chunk-execute_all_example :
    on_chunk shelf
      (encode_requests requests)
      (record { parser = between []; out = codes "x"; out_off = 0; closing = false })
      nothing_held
    ≡ (let c : Conn = record {
      parser = between [];
      out = codes "x" ++ flatten (execute_all shelf requests nothing_held).0;
      out_off = 0;
      closing = false;
    } in
        if ltb (max_out_bytes / 2) (backlog c)
        then flush c (execute_all shelf requests nothing_held).1
        else read_on c (execute_all shelf requests nothing_held).1)
on_chunk-execute_all_example =
    on_chunk-execute_all shelf requests (codes "x") 0 nothing_held
      (
        (omega arith, omega arith, (omega arith, (omega arith, (omega arith, tt)))),
        (
          (omega arith, omega arith, (omega arith, (omega arith, tt))),
          ((omega arith, omega arith, (omega arith, (omega arith, (omega arith, tt)))), tt),
        ),
      )
      (unfold encode_request array_header bulk_string decimal decimal_loop in omega arith)
      replies_fit
