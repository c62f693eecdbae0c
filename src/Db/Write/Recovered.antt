-- ===== src/Db/Write/Recovered.antt =====
-- A replay (`DB::Open`) of the log that `Put` and `Delete` (src/db.cpp) wrote gives back the memory
-- table.
use bedrockkv.Prelude.{
  ℕ, ◌-◌, ◌^◌, ◌<◌, ◌≡◌, refl, ap, sym, ◌∙◌, subst, Bool, true, false, Option, none, some, [],
  append-nil, arith, Bytes, IsU32, IsU64, length, leb,
}
use bedrockkv.Status.{Status, is_ok}
use bedrockkv.Key.{type_deletion, type_value}
use bedrockkv.Wal.Reader.{Fill, IsFaithful}
use bedrockkv.Db.Replay.{whole, replay}
use bedrockkv.Db.Replay.Recovery.{logged_file, replay-logged}
use bedrockkv.Db.Write.{Memory, State, Kernel, write_entry}
use bedrockkv.Db.Write.Calls.{rotate, rotated, write_room, put, delete, flushed}
use bedrockkv.Db.Write.Logging.{IsLogged, is_success}
use bedrockkv.Db.Write.Entering.{write_put-IsLogged, write_delete-IsLogged, rotate-IsLogged}

-- A write that stands for `Put` and `Delete`, from any room in the memory table.
module _ (k : Kernel) (type : ℕ) (key value : Bytes)
    (writes : (e : State)
      → IsLogged e
      → IsU64 e.next_seq
      → is_success (write_entry k true type key value e).1 ≡ true
      → IsLogged (write_entry k true type key value e).0) where
  rotated-IsLogged :
      (x : State × Status)
      → IsLogged x.0
      → IsU64 x.0.next_seq
      → is_success (rotated k type key value x).1 ≡ true
      → IsLogged (rotated k type key value x).0
  unfolding rotated is_success
  rotated-IsLogged (d, s) h hs good = split (is_ok s) refl
    where
      split : (b : Bool) → is_ok s ≡ b → IsLogged (rotated k type key value (d, s)).0
      split true p = rw p (writes d h hs (sym (rw p refl) ∙ good))
      split false p = absurd (ground (arith, p, good))

  write_room-IsLogged :
      (d : State) (o : Option Memory)
      → IsLogged d
      → IsU64 d.next_seq
      → is_success (write_room k type key value d o).1 ≡ true
      → IsLogged (write_room k type key value d o).0
  unfolding write_room is_success
  write_room-IsLogged d (some imm) h hs good = absurd (cc good)
  write_room-IsLogged d none h hs good =
      split (leb d.write_buffer_size d.mem.approximate_size) refl good
    where
      split :
          (b : Bool)
          → leb d.write_buffer_size d.mem.approximate_size ≡ b
          → is_success (write_room k type key value d none).1 ≡ true
          → IsLogged (write_room k type key value d none).0
      split true p g = rw p (
          rotated-IsLogged (rotate k d) (rotate-IsLogged k d h).0
            (omega (arith, hs, (rotate-IsLogged k d h).1)) (sym (rw p refl) ∙ g))
      split false p g = rw p (writes d h hs (sym (rw p refl) ∙ g))

-- A state that `Put`s and `Delete`s reach which all returned without an error, with flushes of the
-- background thread anywhere between them; keys are shorter than 2 ^ 32 - 17 bytes, where
-- `ParseRecord` adds without a wrap, and values than 2 ^ 32.
pub data Calls (d : State) : State → Type 0 where
  no_call : Calls d d
  one_put :
      {e f : State} (k : Kernel) (key value : Bytes)
      → Calls d e
      → length key < 2 ^ 32 - 17
      → IsU32 (length value)
      → IsU64 e.next_seq
      → is_success (put k key value e).1 ≡ true
      → f ≡ (put k key value e).0
      → Calls d f
  one_delete :
      {e f : State} (k : Kernel) (key : Bytes)
      → Calls d e
      → length key < 2 ^ 32 - 17
      → IsU64 e.next_seq
      → is_success (delete k key e).1 ≡ true
      → f ≡ (delete k key e).0
      → Calls d f
  one_flush : {e f : State} (s : Status) → Calls d e → f ≡ flushed s e → Calls d f

flushed-IsLogged : (s : Status) (d : State) → IsLogged d → IsLogged (flushed s d)
unfolding flushed
flushed-IsLogged s d h = split (is_ok s) refl
  where
    split : (b : Bool) → is_ok s ≡ b → IsLogged (flushed s d)
    split true p = rw p h
    split false p = rw p h

Calls-IsLogged : {d e : State} → IsLogged d → Calls d e → IsLogged e
unfolding put delete
Calls-IsLogged h no_call = h
Calls-IsLogged h (one_put {e = e} k key value before hk hv hs good q) = subst IsLogged (sym q) (
    write_room-IsLogged k type_value key value
      (λ c l s g. write_put-IsLogged k true key value c l s hk hv g) e e.imm
      (Calls-IsLogged h before) hs good)
Calls-IsLogged h (one_delete {e = e} k key before hk hs good q) = subst IsLogged (sym q) (
    write_room-IsLogged k type_deletion key []
      (λ c l s g. write_delete-IsLogged k true key c l s hk g) e e.imm (Calls-IsLogged h before) hs
      good)
Calls-IsLogged h (one_flush {e = e} s before q) =
    subst IsLogged (sym q) (flushed-IsLogged s e (Calls-IsLogged h before))

-- From a state whose log holds what its memory table has, after any Puts and Deletes that
-- returned without an error, rotations among them and flushes of the background thread between
-- them, a replay of the current log gives exactly the records of the memory table and cuts
-- nothing, if keys are below 2^32 - 17 bytes, values below 2^32 bytes and sequence numbers below
-- 2^64, and the reading of a block is faithful.
pub replay-Calls :
    (fill : Bytes → Fill) (d e : State)
    → IsFaithful fill
    → IsLogged d
    → Calls d e
    → replay fill e.log.file ≡ record { applied = e.mem.records; ending = whole }
replay-Calls fill d e faithful h calls =
    let l = Calls-IsLogged h calls in
    ap (replay fill) (l.0.0 ∙ sym (append-nil (logged_file e.mem.records)))
    ∙ replay-logged fill faithful e.mem.records [] l.1 (omega arith)
