-- ===== src/Db/Write/Calls.antt =====
-- `RotateForFlush`, `Put` and `Delete`, src/db.cpp.
use bedrockkv.Prelude.{ℕ, ◌+◌, true, not, Option, none, some, [], ◌++◌, Bytes, leb, if◌then◌else◌}
use bedrockkv.Prelude.Text.{codes, decimal}
use bedrockkv.Status.{Status, ok, is_ok, io_error}
use bedrockkv.Key.{type_deletion, type_value}
use bedrockkv.Vlog.{pad6}
use bedrockkv.Db.Write.{Memory, empty_memory, State, Kernel, Ended, returned, waits, write_entry}

-- `%06llu.log`
unfoldable pub log_file_name : ℕ → Bytes
log_file_name number = pad6 (decimal number) ++ codes ".log"

-- The members behind the switch to a new log.
unfoldable pub switched : State → State
switched d = record d {
  next_file_number = d.next_file_number + 2;
  imm_log_number = d.log_number;
  imm_sst_number = d.next_file_number + 1;
  imm = some d.mem;
  mem = empty_memory;
  log_number = d.next_file_number;
  log = record { file = []; file_offset = 0 };
  log_synced = 0;
  unsynced_bytes = 0;
}

-- `RotateForFlush`: the number of the new log is given back where the log cannot be made.
unfoldable pub rotate : Kernel → State → State × Status
unfolding switched log_file_name
rotate k d =
    let name = log_file_name d.next_file_number in
    if not k.open_log
    then (d, io_error (codes "cannot create " ++ (name ++ codes ": ")))
    else if not k.fsync_new_log
    then (d, io_error (codes "fsync " ++ (name ++ codes " failed: ")))
    else if not (is_ok k.sync_dir)
    then (d, k.sync_dir)
    else (switched d, ok)

unfoldable pub rotated : Kernel → ℕ → Bytes → Bytes → State × Status → State × Ended
unfolding write_entry
rotated k type key value (d, s) =
    if is_ok s then write_entry k true type key value d else (d, returned s)

unfoldable pub write_room : Kernel → ℕ → Bytes → Bytes → State → Option Memory → State × Ended
unfolding rotated rotate write_entry
write_room k type key value d (some imm) = (d, waits)
write_room k type key value d none =
    if leb d.write_buffer_size d.mem.approximate_size
    then rotated k type key value (rotate k d)
    else write_entry k true type key value d

-- `Put` and `Delete`; while an immutable memory table is there, the call waits for its flush: it
-- goes on as a new call behind `flushed`.
unfoldable pub put : Kernel → Bytes → Bytes → State → State × Ended
unfolding write_room
put k key value d = write_room k type_value key value d d.imm

unfoldable pub delete : Kernel → Bytes → State → State × Ended
unfolding write_room
delete k key d = write_room k type_deletion key [] d d.imm

-- `BackgroundLoop`, behind `FlushImmMemTable`: the immutable memory table goes once the flush
-- succeeded, and the writes that wait go on. A failed flush is tried again.
unfoldable pub flushed : Status → State → State
flushed s d = if is_ok s then record d { imm = none } else d
