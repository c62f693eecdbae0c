-- ===== src/Db/Write.antt =====
-- The write path of src/db.cpp without `io_uring`: `WriteEntry` and `MaybeSync`. What
-- the kernel answers is an argument of each call.
pub mod Calls
pub mod Logging
pub mod Entering
pub mod Recovered
pub mod Durable
use bedrockkv.Prelude.{
  ℕ, suc, ◌+◌, ◌-◌, ◌%◌, ◌^◌, Bool, true, false, not, ◌&&◌, ◌||◌, Option, none, some, List, [], ◌∷◌,
  ◌++◌, Bytes, length, byte_at, ltb, leb, ◌==◌, if◌then◌else◌,
}
use bedrockkv.Prelude.Text.{codes, decimal}
use bedrockkv.Status.{Status, ok, is_ok, io_error}
use bedrockkv.Io.{WriteAnswer}
use bedrockkv.Key.{type_deletion, type_value}
use bedrockkv.Vlog.{
  Vlog, Appended, appended, append_failed, append_waiting, append, encode_value_pointer, pad6,
  pointer_size, pointer_tag,
}
use bedrockkv.Wal.{Writer, Added, added, add_waiting, add_record}
use bedrockkv.Db.Record.{LogRecord, encode_record}

pub data SyncMode : Type 0 where
  sync_always sync_periodic sync_never : SyncMode

-- A memory table: the records put into it, in order, and its `approximate_size_`.
pub record Memory : Type 0 where
  pub records : List LogRecord
  pub approximate_size : ℕ

abbrev pub empty_memory : Memory
empty_memory = record { records = []; approximate_size = 0 }

-- `MemTable::Put` and `MemTable::Delete`
unfoldable pub memory_add : LogRecord → Memory → Memory
memory_add r m = record {
  records = m.records ++ r ∷ [];
  approximate_size =
      m.approximate_size
      + (length r.key + (if r.type == type_value then length r.value else 0) + 36);
}

-- The current generation of the value log, while separation is on; `synced` is how much of it
-- the last `fsync` made durable.
pub record Separation : Type 0 where
  pub threshold : ℕ
  pub vlog : Vlog
  pub vlog_synced : ℕ

-- The members of `DB` that a write touches. `log_synced` is how much of the log the last `fsync`
-- made durable.
pub record State : Type 0 where
  pub sync_mode : SyncMode
  pub write_buffer_size : ℕ
  pub next_seq : ℕ
  pub mem : Memory
  pub imm : Option Memory
  pub log : Writer
  pub log_synced : ℕ
  pub log_number : ℕ
  pub imm_log_number : ℕ
  pub imm_sst_number : ℕ
  pub next_file_number : ℕ
  pub separation : Option Separation
  pub unsynced_bytes : ℕ
  pub stats_wal_bytes : ℕ
  pub stats_vlog_bytes : ℕ
  pub stats_user_bytes : ℕ

-- What the kernel answers during one call of `Put` or `Delete`.
pub record Kernel : Type 0 where
  pub vlog_writes : List WriteAnswer
  pub vlog_seek : Bool
  pub log_writes : List WriteAnswer
  pub vlog_fsync : Bool
  pub log_fsync : Bool
  pub open_log : Bool
  pub fsync_new_log : Bool
  pub sync_dir : Status

-- A call returned, or waits: for the kernel, or for the background thread.
pub data Ended : Type 0 where
  returned : Status → Ended
  waits : Ended

unfoldable pub is_pointer_shaped : Bytes → Bool
is_pointer_shaped value = length value == pointer_size && byte_at value 0 == pointer_tag

-- `need`; `none` is the early return of `kSyncNever`.
unfoldable pub sync_need : SyncMode → ℕ → Option Bool
sync_need sync_always unsynced = some true
sync_need sync_periodic unsynced = some (leb (2 ^ 20) unsynced)
sync_need sync_never unsynced = none

-- `::fsync(log_fd_)` and what follows it.
unfoldable pub sync_log : Bool → State → State × Ended
sync_log done d =
    if done
    then (record d { log_synced = length d.log.file; unsynced_bytes = 0 }, returned ok)
    else (d, returned (io_error (codes "log fsync failed: ")))

-- The value log is synced before the log.
unfoldable pub sync_files : Kernel → State → Option Separation → State × Ended
unfolding sync_log
sync_files k d none = sync_log k.log_fsync d
sync_files k d (some s) =
    if k.vlog_fsync
    then sync_log k.log_fsync
        (record d { separation = some (record s { vlog_synced = length s.vlog.file }) })
    else (d, returned (io_error (codes "vlog fsync failed: ")))

unfoldable pub sync_if : Kernel → State → Option Bool → State × Ended
unfolding sync_files
sync_if k d none = (d, returned ok)
sync_if k d (some need) = if need then sync_files k d d.separation else (d, returned ok)

-- `MaybeSync`
unfoldable pub maybe_sync : Kernel → State → State × Ended
unfolding sync_if sync_need
maybe_sync k d = sync_if k d (sync_need d.sync_mode d.unsynced_bytes)

-- `ForceDurabilityLocked`
unfoldable pub force_durability : Kernel → State → State × Ended
unfolding sync_files
force_durability k d = sync_files k d d.separation

-- The memory table is written last, and the sequence number moves on.
unfoldable pub apply_entry : LogRecord → State × Ended → State × Ended
unfolding memory_add
apply_entry r (d, waits) = (d, waits)
apply_entry r (d, returned s) =
    if is_ok s
    then (record d { mem = memory_add r d.mem; next_seq = suc d.next_seq }, returned ok)
    else (d, returned s)

unfoldable pub count_bytes : Bool → ℕ → State → State
count_bytes count_user size d =
    if count_user then record d { stats_user_bytes = d.stats_user_bytes + size } else d

-- Behind `AddRecord`; `before` is the offset in front of it.
unfoldable pub on_added : Kernel → Bool → ℕ → LogRecord → State → Writer × Added → State × Ended
unfolding maybe_sync apply_entry count_bytes
on_added k count_user size r d (w, add_waiting) = (record d { log = w }, waits)
on_added k count_user size r d (w, added s) =
    let written = w.file_offset - d.log.file_offset in
    if is_ok s
    then apply_entry r (
        maybe_sync k (
          count_bytes count_user size (record d {
            log = w;
            unsynced_bytes = d.unsynced_bytes + written;
            stats_wal_bytes = d.stats_wal_bytes + written;
          })))
    else (record d { log = w }, returned s)

-- The log record of what is stored, and what follows.
unfoldable pub log_entry : Kernel → Bool → ℕ → LogRecord → State → State × Ended
unfolding on_added
log_entry k count_user size r d =
    on_added k count_user size r d
      (add_record k.log_writes (encode_record r.seq r.type r.key r.value) d.log)

-- Behind the `Append` of the value log.
unfoldable pub on_appended :
    Kernel → Bool → Bytes → Bytes → State → Separation → Vlog × Appended → State × Ended
unfolding log_entry
on_appended k count_user key value d s (v, append_waiting) =
    (record d { separation = some (record s { vlog = v }) }, waits)
on_appended k count_user key value d s (v, append_failed) = (
  record d { separation = some (record s { vlog = v }) },
  returned (io_error (codes "vlog append failed: ")),
)
on_appended k count_user key value d s (v, appended offset size) =
    log_entry k count_user (length key + length value)
      (record {
        seq = d.next_seq;
        type = type_value;
        key = key;
        value = encode_value_pointer (record {
          vlog_number = v.number;
          offset = offset;
          value_size = length value % 2 ^ 32;
        });
      })
      (record d {
        separation = some (record s { vlog = v });
        unsynced_bytes = d.unsynced_bytes + size;
        stats_vlog_bytes = d.stats_vlog_bytes + size;
      })

unfoldable pub write_inline : Kernel → Bool → ℕ → Bytes → Bytes → State → State × Ended
unfolding log_entry
write_inline k count_user type key value d =
    log_entry k count_user (length key + length value)
      (record { seq = d.next_seq; type = type; key = key; value = value }) d

unfoldable pub write_value :
    Kernel → Bool → Bytes → Bytes → State → Option Separation → State × Ended
unfolding on_appended write_inline is_pointer_shaped
write_value k count_user key value d none = write_inline k count_user type_value key value d
write_value k count_user key value d (some s) =
    if leb s.threshold (length value) || is_pointer_shaped value
    then on_appended k count_user key value d s (append s.vlog k.vlog_writes k.vlog_seek key value)
    else write_inline k count_user type_value key value d

-- `WriteEntry`
unfoldable pub write_entry : Kernel → Bool → ℕ → Bytes → Bytes → State → State × Ended
unfolding write_value write_inline
write_entry k count_user type key value d =
    if type == type_value
    then write_value k count_user key value d d.separation
    else write_inline k count_user type key value d
