-- ===== src/Server/Connection.antt =====
-- The connections of src/server.cpp: what `HandleReadable` and `FlushOut` do to one connection. The
-- answers of `::read` and `::write` are arguments.
use bedrockkv.Prelude.{
  ℕ, zero, suc, ◌+◌, ◌-◌, ◌*◌, ◌/◌, Bool, true, false, List, [], ◌∷◌, ◌++◌, Bytes, length, drop,
  take, ltb, if◌then◌else◌,
}
use bedrockkv.Prelude.Text.{codes}
use bedrockkv.Resp.{
  Parser, Next, request, need_more, protocol_error, no_fuel, new_parser, feed, next,
}
use bedrockkv.Resp.Reply.{error_reply}
use bedrockkv.Server.{Db, execute}

abbrev pub max_out_bytes : ℕ
max_out_bytes = 64 * 1024 * 1024

abbrev pub max_in_bytes : ℕ
max_in_bytes = 64 * 1024 * 1024

abbrev pub max_conns : ℕ
max_conns = 4096

pub record Conn : Type 0 where
  pub parser : Parser
  pub out : Bytes
  pub out_off : ℕ
  pub closing : Bool

abbrev pub new_conn : Conn
new_conn = record { parser = new_parser; out = []; out_off = 0; closing = false }

-- An answer of `::read` on a socket.
pub data ReadEvent : Type 0 where
  received : Bytes → ReadEvent
  peer_closed read_again read_interrupted read_failed : ReadEvent

-- An answer of `::write` on a socket.
pub data SendEvent : Type 0 where
  sent : ℕ → SendEvent
  send_again send_interrupted send_failed : SendEvent

abbrev pub backlog : Conn → ℕ
backlog c = length c.out - c.out_off

-- A round of the loop over the complete requests goes on or ends.
pub data DrainStep (S : Type 0) : Type 0 where
  another : Conn → S → DrainStep S
  drained : Conn → S → DrainStep S

module _ {S : Type 0} (db : Db S) where
  unfoldable pub on_request : Conn → S → List Bytes → DrainStep S
  on_request c s args =
      let (reply, s') = execute db args s in
      let c' = record c { out = c.out ++ reply } in
      if ltb max_out_bytes (backlog c')
      then drained (record c' { closing = true }) s'
      else another c' s'

  unfoldable pub on_next : Conn → S → Next → DrainStep S
  unfolding on_request
  on_next c s need_more = drained c s
  on_next c s (protocol_error error) =
      drained (record c { out = c.out ++ error_reply (codes "ERR " ++ error); closing = true }) s
  on_next c s (request args) = on_request c s args
  on_next c s no_fuel = drained c s

  unfoldable pub drain_step : Conn → S → DrainStep S
  unfolding on_next
  drain_step c s = let (answer, p) = next c.parser in on_next (record c { parser = p }) s answer

  unfoldable pub drain_continue : (Conn → S → Conn × S) → DrainStep S → Conn × S
  drain_continue loop (another c s) = loop c s
  drain_continue loop (drained c s) = (c, s)

  -- The loop over the complete requests. A request takes a byte at least.
  unfoldable pub drain_loop : ℕ → Conn → S → Conn × S
  unfolding drain_continue
  drain_loop zero c s = (c, s)
  drain_loop (suc fuel) c s = drain_continue (drain_loop fuel) (drain_step c s)

  unfoldable pub drain : Conn → S → Conn × S
  unfolding drain_loop
  drain c s = drain_loop (length c.parser.buf + 1) c s

  -- How the reading loop goes on behind a chunk.
  pub data ReadStep : Type 0 where
    read_on : Conn → S → ReadStep
    flush : Conn → S → ReadStep

  unfoldable pub on_chunk : Bytes → Conn → S → ReadStep
  unfolding drain
  on_chunk bytes c s =
      let fed = record c { parser = feed bytes c.parser } in
      let (c', s') = drain fed s in
      if ltb max_in_bytes (length fed.parser.buf)
      then flush (record fed { closing = true }) s
      else if c'.closing
      then flush c' s'
      else if ltb (max_out_bytes / 2) (backlog c')
      then flush c' s'
      else read_on c' s'

  -- `HandleReadable` returned false from within its loop, or goes to `FlushOut`.
  pub data ReadEnd : Type 0 where
    died : Conn → S → ReadEnd
    to_flush : Conn → S → ReadEnd

  unfoldable pub read_continue : (Conn → S → ReadEnd) → ReadStep → ReadEnd
  read_continue loop (read_on c s) = loop c s
  read_continue loop (flush c s) = to_flush c s

  -- The reading loop; one whose answers are used up stands at `EAGAIN`.
  unfoldable pub read_loop : List ReadEvent → Conn → S → ReadEnd
  unfolding on_chunk read_continue
  read_loop [] c s = to_flush c s
  read_loop (received bytes ∷ events) c s = read_continue (read_loop events) (on_chunk bytes c s)
  read_loop (peer_closed ∷ events) c s = died c s
  read_loop (read_again ∷ events) c s = to_flush c s
  read_loop (read_interrupted ∷ events) c s = read_loop events c s
  read_loop (read_failed ∷ events) c s = died c s

-- What the socket took, the connection, whether it lives, and which readiness it waits for.
pub record Flushed : Type 0 where
  pub socket : Bytes
  pub conn : Conn
  pub alive : Bool
  pub wait_writable : Bool

-- Behind the writing loop. `armed` is the outcome of `epoll_ctl`.
unfoldable pub flush_end : Bool → Bytes → Conn → Flushed
flush_end armed socket c =
    let c' = if ltb 0 c.out_off then record c { out = drop c.out_off c.out; out_off = 0 } else c in
    record {
      socket = socket;
      conn = c';
      alive = if c.closing then false else armed;
      wait_writable = false;
    }

-- `FlushOut`, on the bytes that the socket has taken so far; a loop whose answers are used up
-- stands at `EAGAIN`.
unfoldable pub flush_out : Bool → List SendEvent → Bytes → Conn → Flushed
unfolding flush_end
flush_out armed [] socket c =
    if ltb c.out_off (length c.out)
    then record { socket = socket; conn = c; alive = armed; wait_writable = true }
    else flush_end armed socket c
flush_out armed (sent n ∷ events) socket c =
    let rest =
      flush_out armed events (socket ++ take n (drop c.out_off c.out))
        (record c { out_off = c.out_off + n }) in
    if ltb c.out_off (length c.out) then rest else flush_end armed socket c
flush_out armed (send_interrupted ∷ events) socket c =
    let rest = flush_out armed events socket c in
    if ltb c.out_off (length c.out) then rest else flush_end armed socket c
flush_out armed (send_again ∷ events) socket c =
    if ltb c.out_off (length c.out)
    then record { socket = socket; conn = c; alive = armed; wait_writable = true }
    else flush_end armed socket c
flush_out armed (send_failed ∷ events) socket c =
    if ltb c.out_off (length c.out)
    then record { socket = socket; conn = c; alive = false; wait_writable = false }
    else flush_end armed socket c

module _ {S : Type 0} (db : Db S) where
  -- `HandleReadable`, behind its reading loop: on `false` the caller closes the connection.
  unfoldable pub after_reading : Bool → List SendEvent → ReadEnd db → Flushed × S
  unfolding flush_out
  after_reading armed sends (died c s) =
      (record { socket = []; conn = c; alive = false; wait_writable = false }, s)
  after_reading armed sends (to_flush c s) = (flush_out armed sends [] c, s)

  -- `HandleReadable`
  unfoldable pub handle_readable : Bool → List ReadEvent → List SendEvent → Conn → S → Flushed × S
  unfolding read_loop after_reading
  handle_readable armed reads sends c s = after_reading armed sends (read_loop db reads c s)
