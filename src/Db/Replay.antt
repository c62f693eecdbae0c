-- ===== src/Db/Replay.antt =====
-- The replay of one log by `DB::Open`, src/db.cpp: the records that go into the memory table, in
-- order, and where the file is cut.
pub mod Recovery
use bedrockkv.Prelude.{
  ℕ, zero, suc, ◌+◌, Bool, true, false, Option, none, some, List, [], ◌∷◌, Bytes, length, ltb, ◌==◌,
  if◌then◌else◌,
}
use bedrockkv.Wal.Reader.{
  Reader, Fill, ReadResult, payload, log_end, corruption_at, out_of_fuel, read_record, fresh,
}
use bedrockkv.Db.Record.{LogRecord, parse_record}

-- How the loop ends; `ftruncate` to the offset, if one is given.
pub data ReplayEnd : Type 0 where
  whole : ReplayEnd
  cut_at : ℕ → ReplayEnd
  replay_fuel : ReplayEnd

-- `applied` are the calls of `Put` and `Delete`.
pub record Replayed : Type 0 where
  pub applied : List LogRecord
  pub ending : ReplayEnd

unfoldable pub apply_record : LogRecord → Replayed → Replayed
apply_record rec run = record run { applied = rec ∷ run.applied }

unfoldable pub replay_payload : (ℕ → Reader → Replayed) → ℕ → Reader → Option LogRecord → Replayed
unfolding apply_record
replay_payload next applied_end r none = record { applied = []; ending = cut_at applied_end }
replay_payload next applied_end r (some rec) = apply_record rec (next r.last_good_end r)

unfoldable pub replay_continue : (ℕ → Reader → Replayed) → ℕ → ReadResult × Reader → Replayed
unfolding replay_payload
replay_continue next applied_end (payload p, r) = replay_payload next applied_end r (parse_record p)
replay_continue next applied_end (log_end, r) = record { applied = []; ending = whole }
replay_continue next applied_end (corruption_at n, r) = record { applied = []; ending = cut_at n }
replay_continue next applied_end (out_of_fuel, r) = record { applied = []; ending = replay_fuel }

unfoldable pub replay_loop : ℕ → (Bytes → Fill) → ℕ → Reader → Replayed
unfolding replay_continue
replay_loop zero fill applied_end r = record { applied = []; ending = replay_fuel }
replay_loop (suc fuel) fill applied_end r =
    replay_continue (replay_loop fuel fill) applied_end (read_record fill r)

-- Each record takes a byte of the file at least.
unfoldable pub replay : (Bytes → Fill) → Bytes → Replayed
unfolding replay_loop
replay fill file = replay_loop (length file + 1) fill 0 (fresh file)

-- `max_seq`, over the applied records
unfoldable pub max_seq : ℕ → List LogRecord → ℕ
max_seq seen [] = seen
max_seq seen (rec ∷ recs) = max_seq (if ltb seen rec.seq then rec.seq else seen) recs
