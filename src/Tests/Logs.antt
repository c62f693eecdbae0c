-- ===== src/Tests/Logs.antt =====
-- The write-ahead log at concrete inputs.
use bedrockkv.Prelude.{
  All, ◌+◌, ◌≡◌, refl, List, [], ◌∷◌, ◌++◌, arith, Bytes, length, take, drop, ltb,
}
use bedrockkv.Prelude.Text.{codes}
use bedrockkv.Io.{WriteAnswer, wrote, interrupted, all_written, write_all}
use bedrockkv.Io.WriteAll.{write_all-done}
use bedrockkv.Wal.{block_size, encode_record}
use bedrockkv.Wal.Reader.{Reader, Fill, filled, IsFaithful, payload, log_end, read_record, fresh}
use bedrockkv.Wal.RoundTrip.{Stands, fresh-Stands, read_record-encode_record}
use bedrockkv.Wal.Log.{log_bytes, read_all, read_all-log}
use bedrockkv.Db.Record.{LogRecord}
use bedrockkv.Db.Replay.{whole, replay}
use bedrockkv.Db.Replay.Recovery.{IsWrite, of_put, of_delete, logged_file, replay-logged}
use bedrockkv.Wal.Truncation.{Cuts, log_cut}

abbrev whole_blocks : Bytes → Fill
whole_blocks file =
    filled (take block_size file) (ltb (length file) block_size) (drop block_size file)

faithful : IsFaithful whole_blocks
faithful file = refl

abbrev two : List Bytes
two = codes "put a" ∷ codes "del b" ∷ []

abbrev stray : Bytes
stray = 1 ∷ 2 ∷ 3 ∷ []

read_record-encode_record_example :
    (r' : Reader) × (read_record whole_blocks (fresh (encode_record (codes "put a") 0 ++ stray))
      ≡ (payload (codes "put a"), r'))
    × Stands r' (0 + length (encode_record (codes "put a") 0)) stray
    × (r'.last_good_end ≡ 0 + length (encode_record (codes "put a") 0))
read_record-encode_record_example =
    read_record-encode_record whole_blocks faithful
      (fresh (encode_record (codes "put a") 0 ++ stray)) 0 (codes "put a") stray
      (fresh-Stands (encode_record (codes "put a") 0 ++ stray))

read_all-log_example :
    (r' : Reader) × (read_all (length two + 1) whole_blocks (fresh (log_bytes 0 two ++ stray))
      ≡ record { payloads = two; last = log_end; reader = r' })
    × (r'.last_good_end ≡ length (log_bytes 0 two))
read_all-log_example = read_all-log whole_blocks faithful two stray (omega arith)

log_cut_example :
    (take
        (length two)
        (read_all (length two + 1) whole_blocks (fresh (log_bytes 0 two ++ stray))).payloads
      ≡ two)
    × Cuts
        (length (log_bytes 0 two))
        (read_all (length two + 1) whole_blocks (fresh (log_bytes 0 two ++ stray))).last
log_cut_example = log_cut whole_blocks faithful two stray

abbrev answers : List WriteAnswer
answers = wrote 2 ∷ interrupted ∷ wrote 3 ∷ []

write_all-done_example : (write_all answers (codes "put a") []).0 ≡ [] ++ codes "put a"
write_all-done_example = write_all-done answers (codes "put a") [] done
  where
    done : (write_all answers (codes "put a") []).1 ≡ all_written
    done = unfold write_all take drop in refl

abbrev writes : List LogRecord
writes =
    record { seq = 1; type = 1; key = codes "a"; value = codes "v" }
    ∷ record { seq = 2; type = 0; key = codes "b"; value = [] }
    ∷ []

writes-IsWrite : All IsWrite writes
writes-IsWrite = (
  of_put refl (omega arith) (omega arith) (omega arith),
  (of_delete refl refl (omega arith) (omega arith), tt),
)

replay-logged_example :
    replay whole_blocks (logged_file writes ++ stray) ≡ record { applied = writes; ending = whole }
replay-logged_example =
    replay-logged whole_blocks faithful writes stray writes-IsWrite (omega arith)
