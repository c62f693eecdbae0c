-- ===== src/Server/Pipeline.antt =====
-- Pipelined requests, `HandleReadable` of src/server.cpp: every complete request of a chunk is
-- executed, and the replies wait in order.
use bedrockkv.Prelude.{
  ℕ, zero, suc, ◌+◌, ◌-◌, ◌≤◌, ◌<◌, ◌≡◌, refl, ap, ◌∙◌, false, List, [], ◌∷◌, ◌++◌, append_assoc,
  append-nil, arith, Bytes, All, length, length-append, drop, ltb, ◌/◌, if◌then◌else◌,
}
use bedrockkv.Resp.{
  need_more, request, max_multibulk, next, parse_loop, parse_step, idle_step, line_ends,
  parse_continue, feed,
}
use bedrockkv.Resp.Reply.{array_header}
use bedrockkv.Resp.RoundTrip.{encode_request, Short, between, next-encode_request}
use bedrockkv.Server.{Db, execute}
use bedrockkv.Server.Session.{execute_all}
use bedrockkv.Server.Connection.{
  Conn, max_out_bytes, max_in_bytes, backlog, on_chunk, flush, read_on, on_request, on_next,
  drain_step, drain_continue, drain_loop, drain,
}

abbrev pub flatten : List Bytes → Bytes
flatten [] = []
flatten (b ∷ bs) = b ++ flatten bs

-- A request that a client can send: not empty, and within the parser's limits.
abbrev pub IsRequest : List Bytes → Type 0
IsRequest args = (1 ≤ length args) × (length args ≤ max_multibulk) × All Short args

-- Requests as they stand in the input, one behind the other.
abbrev pub encode_requests : List (List Bytes) → Bytes
encode_requests [] = []
encode_requests (args ∷ requests) = encode_request args ++ encode_requests requests

next-nothing : next (between []) ≡ (need_more, between [])
unfolding next parse_loop parse_step idle_step line_ends drop parse_continue
next-nothing = refl

next-request :
    (args : List Bytes) (rest : Bytes)
    → IsRequest args
    → next (between (encode_request args ++ rest)) ≡ (request args, between rest)
next-request [] rest h = absurd (omega (arith, h.0))
next-request (a ∷ args) rest h = next-encode_request a args rest h.1 h.2

module _ {S : Type 0} (db : Db S) where
  drain_loop-requests :
      (fuel : ℕ) (requests : List (List Bytes)) (out : Bytes) (off : ℕ) (s : S)
      → All IsRequest requests
      → length requests < fuel
      → length out + length (flatten (execute_all db requests s).0) ≤ max_out_bytes + off
      → drain_loop db fuel
          (record {
            parser = between (encode_requests requests);
            out = out;
            out_off = off;
            closing = false;
          })
          s
        ≡ (
          record {
            parser = between [];
            out = out ++ flatten (execute_all db requests s).0;
            out_off = off;
            closing = false;
          },
          (execute_all db requests s).1,
        )
  unfolding drain_loop drain_continue drain_step on_next on_request execute_all
  drain_loop-requests zero requests out off s ok enough room = absurd (omega arith)
  drain_loop-requests (suc fuel) [] out off s ok enough room =
      rw (next-nothing, append-nil out) refl
  drain_loop-requests (suc fuel) (args ∷ requests) out off s ok enough room =
      let here = execute db args s in
      let fits : ltb max_out_bytes (length (out ++ here.0) - off) ≡ false = ground (
        arith,
        room,
        length-append out here.0,
        length-append here.0 (flatten (execute_all db requests here.1).0),
      ) in
      let rest = drain_loop-requests fuel requests (out ++ here.0) off here.1 ok.1 (omega arith) (
        omega (
          arith,
          room,
          length-append out here.0,
          length-append here.0 (flatten (execute_all db requests here.1).0),
        )) in
      rw (next-request args (encode_requests requests) ok.0, fits)
        (rest
          ∙ ap
              (λ (l : Bytes). (
                record { parser = between []; out = l; out_off = off; closing = false },
                (execute_all db requests here.1).1,
              ))
              (append_assoc out here.0 _))

  requests_short :
      (requests : List (List Bytes)) → length requests ≤ length (encode_requests requests)
  unfolding array_header
  requests_short [] = omega arith
  requests_short (args ∷ requests) = omega (
    arith,
    requests_short requests,
    length-append (encode_request args) (encode_requests requests),
  )

  -- When the input of a connection holds whole requests and their replies fit the backlog limit,
  -- all of them are executed in order, the replies wait in order behind what waited before, and
  -- no input is left.
  drain-execute_all :
      (requests : List (List Bytes)) (out : Bytes) (off : ℕ) (s : S)
      → All IsRequest requests
      → (length out - off) + length (flatten (execute_all db requests s).0) ≤ max_out_bytes
      → drain db
          (record {
            parser = between (encode_requests requests);
            out = out;
            out_off = off;
            closing = false;
          })
          s
        ≡ (
          record {
            parser = between [];
            out = out ++ flatten (execute_all db requests s).0;
            out_off = off;
            closing = false;
          },
          (execute_all db requests s).1,
        )
  unfolding drain
  drain-execute_all requests out off s ok room =
      drain_loop-requests (length (encode_requests requests) + 1) requests out off s ok
        (omega (arith, requests_short requests)) (omega (arith, room))

  -- A chunk of requests that arrives at a connection that stands between requests, each request a
  -- non-empty array of bulk strings within the limits of the parser, is executed whole and in
  -- order, the replies wait in order behind what waited before, no input is left, and the loop
  -- reads on unless more than half of the backlog limit waits; if the chunk is not above
  -- kMaxInBytes and the replies fit the backlog limit.
  pub on_chunk-execute_all :
      (requests : List (List Bytes)) (out : Bytes) (off : ℕ) (s : S)
      → All IsRequest requests
      → length (encode_requests requests) ≤ max_in_bytes
      → (length out - off) + length (flatten (execute_all db requests s).0) ≤ max_out_bytes
      → on_chunk db
          (encode_requests requests)
          (record { parser = between []; out = out; out_off = off; closing = false })
          s
        ≡ (let c : Conn = record {
          parser = between [];
          out = out ++ flatten (execute_all db requests s).0;
          out_off = off;
          closing = false;
        } in
            if ltb (max_out_bytes / 2) (backlog c)
            then flush c (execute_all db requests s).1
            else read_on c (execute_all db requests s).1)
  unfolding on_chunk feed
  on_chunk-execute_all requests out off s ok small room =
      let within : ltb max_in_bytes (length (encode_requests requests)) ≡ false =
        ground (arith, small) in
      rw (drain-execute_all requests out off s ok room, within) refl
