-- ===== src/Tests/Writes.antt =====
-- Writes at concrete inputs.
use bedrockkv.Prelude.{
  ◌≡◌, refl, Bool, true, false, none, [], ◌∷◌, ◌++◌, arith, Bytes, take, drop, ltb, length,
}
use bedrockkv.Prelude.Text.{codes}
use bedrockkv.Status.{ok, is_ok, code_eq}
use bedrockkv.Io.{wrote, write_all}
use bedrockkv.Encoding.{fixed32, fixed64}
use bedrockkv.Wal
use bedrockkv.Wal.{
  block_size, Writer, add_end, add_record, encode_loop, physical_record, padding, aligned,
  fragment_size, record_type,
}
use bedrockkv.Wal.Reader.{Fill, filled}
use bedrockkv.Db.Record
use bedrockkv.Db.Record.{LogRecord}
use bedrockkv.Db.Replay.{whole, replay}
use bedrockkv.Db.Replay.Recovery.{logged}
use bedrockkv.Db.Write.{
  sync_always, empty_memory, State, Kernel, sync_log, sync_files, sync_if, sync_need, maybe_sync,
  memory_add, apply_entry, count_bytes, on_added, log_entry, write_inline, write_value, write_entry,
}
use bedrockkv.Db.Write.Calls.{switched, rotate, rotated, write_room, put, delete, flushed}
use bedrockkv.Db.Write.Logging.{Holds, IsLogged, is_accepted, is_success}
use bedrockkv.Db.Write.Recovered.{no_call, one_put, one_delete, one_flush, replay-Calls}
use bedrockkv.Db.Write.Durable.{IsDurable, write_entry-IsDurable, log_entry-failed_sync}

abbrev whole_file : Bytes → Fill
whole_file =
    λ file. filled (take block_size file) (ltb (length file) block_size) (drop block_size file)

abbrev fresh_state : State
fresh_state = record {
  sync_mode = sync_always;
  write_buffer_size = 4096;
  next_seq = 1;
  mem = empty_memory;
  imm = none;
  log = record { file = []; file_offset = 0 };
  log_synced = 0;
  log_number = 2;
  imm_log_number = 0;
  imm_sst_number = 0;
  next_file_number = 3;
  separation = none;
  unsynced_bytes = 0;
  stats_wal_bytes = 0;
  stats_vlog_bytes = 0;
  stats_user_bytes = 0;
}

abbrev willing : Bool → Kernel
willing synced = record {
  vlog_writes = [];
  vlog_seek = true;
  log_writes = wrote 100 ∷ [];
  vlog_fsync = true;
  log_fsync = synced;
  open_log = true;
  fsync_new_log = true;
  sync_dir = ok;
}

abbrev first_record : LogRecord
first_record = record { seq = 1; type = 1; key = codes "k"; value = codes "v" }

first_accepted :
    (synced : Bool)
    → is_accepted (add_record (willing synced).log_writes (logged first_record) fresh_state.log).1
      ≡ true
unfolding add_record add_end is_accepted is_ok code_eq write_all Wal.encode_record encode_loop
    physical_record padding aligned fragment_size record_type Record.encode_record drop take fixed32
    fixed64
first_accepted synced = refl

-- How a call in the first state ends depends on the sync.
first_ended :
    (synced : Bool)
    → is_success (log_entry (willing synced) true 2 first_record fresh_state).1 ≡ synced
unfolding log_entry on_added maybe_sync sync_need sync_if sync_files sync_log count_bytes
    apply_entry is_success add_record add_end is_accepted is_ok code_eq write_all Wal.encode_record
    encode_loop physical_record padding aligned fragment_size record_type Record.encode_record drop
    take fixed32 fixed64
first_ended true = refl
first_ended false = refl

-- A memory table of any size is full.
abbrev small_state : State
small_state = record fresh_state { write_buffer_size = 1 }

abbrev after_first : State
after_first = (put (willing true) (codes "k") (codes "v") small_state).0

abbrev after_rotation : State
after_rotation = flushed ok (put (willing true) (codes "l") (codes "w") after_first).0

abbrev after_third : State
after_third = (delete (willing true) (codes "k") after_rotation).0

-- What the three calls return, and the sequence numbers between them.
calls_succeed :
    (is_success (put (willing true) (codes "k") (codes "v") small_state).1 ≡ true)
    × (is_success (put (willing true) (codes "l") (codes "w") after_first).1 ≡ true)
    × (is_success (delete (willing true) (codes "k") after_rotation).1 ≡ true)
    × (after_first.next_seq ≡ 2)
    × (after_rotation.next_seq ≡ 3)
unfolding put delete write_room rotated rotate switched flushed write_entry write_value write_inline
    log_entry on_added maybe_sync sync_need sync_if sync_files sync_log count_bytes apply_entry
    memory_add is_success add_record add_end is_accepted is_ok code_eq write_all Wal.encode_record
    encode_loop physical_record padding aligned fragment_size record_type Record.encode_record drop
    take fixed32 fixed64
calls_succeed = (refl, refl, refl, refl, refl)

small_state-IsLogged : IsLogged small_state
small_state-IsLogged = ((refl, refl), tt)

-- A put, a put that rotates, the flush, and a delete that rotates again.
replay-Calls_example :
    replay whole_file after_third.log.file
    ≡ record { applied = after_third.mem.records; ending = whole }
replay-Calls_example =
    replay-Calls whole_file small_state after_third (λ file. refl) small_state-IsLogged
      (one_delete (willing true) (codes "k")
        (one_flush ok
          (one_put (willing true) (codes "l") (codes "w")
            (one_put (willing true) (codes "k") (codes "v") no_call (omega arith) (omega arith)
              (omega arith) calls_succeed.0 refl)
            (omega arith) (omega arith) (omega (arith, calls_succeed.3)) calls_succeed.1 refl)
          refl)
        (omega arith) (omega (arith, calls_succeed.4)) calls_succeed.2 refl)

first_entry_written :
    is_success (write_entry (willing true) true 1 (codes "k") (codes "v") fresh_state).1 ≡ true
unfolding write_entry write_value write_inline
first_entry_written = first_ended true

write_entry-IsDurable_example :
    IsDurable (write_entry (willing true) true 1 (codes "k") (codes "v") fresh_state).0
write_entry-IsDurable_example =
    write_entry-IsDurable (willing true) true 1 (codes "k") (codes "v") fresh_state refl
      first_entry_written

log_entry-failed_sync_example :
    Holds
      (log_entry (willing false) true 2 first_record fresh_state).0.log
      (fresh_state.mem.records ++ first_record ∷ [])
    × ((log_entry (willing false) true 2 first_record fresh_state).0.mem ≡ fresh_state.mem)
    × ((log_entry (willing false) true 2 first_record fresh_state).0.next_seq
        ≡ fresh_state.next_seq)
log_entry-failed_sync_example =
    log_entry-failed_sync (willing false) true 2 first_record fresh_state (refl, refl)
      (first_accepted false) (first_ended false)
