-- ===== src/Server/Flushing.antt =====
-- `FlushOut`, src/server.cpp: the socket takes the replies in order.
use bedrockkv.Prelude.{
  ℕ, ◌+◌, ◌≡◌, refl, ap, sym, ◌∙◌, Bool, true, false, inl, inr, Bool-cases, List, [], ◌∷◌, ◌++◌,
  append_assoc, arith, Bytes, length, take, drop, ltb, drop-drop, take-append-drop, length-drop,
}
use bedrockkv.Server.Connection.{
  Conn, SendEvent, sent, send_again, send_interrupted, send_failed, Flushed, flush_end, flush_out,
}

-- The bytes that the socket took and those that wait behind them.
abbrev pub stream : Flushed → Bytes
stream f = f.socket ++ drop f.conn.out_off f.conn.out

-- A connection that lives on and waits for no room has nothing left to send.
abbrev IsQuiet : Conn → Flushed → Type 0
IsQuiet c f = f.wait_writable ≡ false → f.alive ≡ true → (f.conn.out ≡ []) × (c.closing ≡ false)

flush_end-stream :
    (armed : Bool) (socket : Bytes) (c : Conn)
    → stream (flush_end armed socket c) ≡ socket ++ drop c.out_off c.out
unfolding flush_end drop
flush_end-stream armed socket c = elim (Bool-cases (ltb 0 c.out_off)) [
  | inl moved ↦ rw moved refl
  | inr still ↦ rw still refl
]

flush_end-IsQuiet :
    (armed : Bool) (socket : Bytes) (c : Conn)
    → ltb c.out_off (length c.out) ≡ false
    → IsQuiet c (flush_end armed socket c)
unfolding flush_end drop
flush_end-IsQuiet armed socket c past waits lives = elim (Bool-cases (ltb 0 c.out_off)) [
  | inl moved ↦ rw moved (
    empty (drop c.out_off c.out) (ground (arith, past, length-drop c.out_off c.out)),
    ground (arith, lives),
  )
  | inr still ↦ rw still (empty c.out (ground (arith, past, still)), ground (arith, lives))
]
  where
    empty : (l : Bytes) → length l ≡ 0 → l ≡ []
    empty [] h = refl
    empty (x ∷ l) h = absurd (omega arith)

flush_end-stream-IsQuiet :
    (armed : Bool) (socket : Bytes) (c : Conn)
    → ltb c.out_off (length c.out) ≡ false
    → (stream (flush_end armed socket c) ≡ socket ++ drop c.out_off c.out)
      × IsQuiet c (flush_end armed socket c)
flush_end-stream-IsQuiet armed socket c past =
    (flush_end-stream armed socket c, flush_end-IsQuiet armed socket c past)

stream-sent :
    (n : ℕ) (socket : Bytes) (c : Conn)
    → (socket ++ take n (drop c.out_off c.out)) ++ drop (c.out_off + n) c.out
      ≡ socket ++ drop c.out_off c.out
stream-sent n socket c =
    append_assoc socket _ _
    ∙ ap (λ (l : Bytes). socket ++ (take n (drop c.out_off c.out) ++ l))
        (sym (drop-drop n c.out_off c.out))
    ∙ ap (λ (l : Bytes). socket ++ l) (take-append-drop n (drop c.out_off c.out))

-- Whatever the socket answers, what it took and what still waits are the bytes that waited
-- before, in order; a connection that lives on without waiting for room has nothing left to send
-- and was not to be closed.
pub flush_out-stream :
    (armed : Bool) (events : List SendEvent) (socket : Bytes) (c : Conn)
    → (stream (flush_out armed events socket c) ≡ socket ++ drop c.out_off c.out)
      × ((flush_out armed events socket c).wait_writable ≡ false
          → (flush_out armed events socket c).alive ≡ true
          → ((flush_out armed events socket c).conn.out ≡ []) × (c.closing ≡ false))
unfolding flush_out
flush_out-stream armed [] socket c = elim (Bool-cases (ltb c.out_off (length c.out))) [
  | inr past ↦ rw past (flush_end-stream-IsQuiet armed socket c past)
  | inl more ↦ rw more (refl, λ waits lives. cc)
]
flush_out-stream armed (sent n ∷ events) socket c =
    let (streamed, quiet) =
      flush_out-stream armed events (socket ++ take n (drop c.out_off c.out))
        (record c { out_off = c.out_off + n }) in
    elim (Bool-cases (ltb c.out_off (length c.out))) [
      | inr past ↦ rw past (flush_end-stream-IsQuiet armed socket c past)
      | inl more ↦ rw more (streamed ∙ stream-sent n socket c, quiet)
    ]
flush_out-stream armed (send_again ∷ events) socket c =
    elim (Bool-cases (ltb c.out_off (length c.out))) [
      | inr past ↦ rw past (flush_end-stream-IsQuiet armed socket c past)
      | inl more ↦ rw more (refl, λ waits lives. cc)
    ]
flush_out-stream armed (send_interrupted ∷ events) socket c =
    let rest = flush_out-stream armed events socket c in
    elim (Bool-cases (ltb c.out_off (length c.out))) [
      | inr past ↦ rw past (flush_end-stream-IsQuiet armed socket c past)
      | inl more ↦ rw more rest
    ]
flush_out-stream armed (send_failed ∷ events) socket c =
    elim (Bool-cases (ltb c.out_off (length c.out))) [
      | inr past ↦ rw past (flush_end-stream-IsQuiet armed socket c past)
      | inl more ↦ rw more (refl, λ waits lives. cc)
    ]
