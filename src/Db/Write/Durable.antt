-- ===== src/Db/Write/Durable.antt =====
-- What a write that syncs (`MaybeSync`, src/db.cpp) has made durable, and what one leaves whose sync
-- fails.
use bedrockkv.Prelude.{
  ℕ, ◌+◌, ◌-◌, ◌≡◌, refl, ap, sym, ◌∙◌, subst, Bool, true, false, ◌||◌, Option, none, some, [], ◌∷◌,
  ◌++◌, arith, Bytes, length, leb, ◌==◌,
}
use bedrockkv.Status.{is_ok, code_eq}
use bedrockkv.Key.{type_value}
use bedrockkv.Vlog.{Vlog, Appended, appended, append_failed, append_waiting, append}
use bedrockkv.Wal.{Writer, Added, added, add_waiting, add_record}
use bedrockkv.Db.Record.{LogRecord}
use bedrockkv.Db.Replay.Recovery.{logged}
use bedrockkv.Db.Write.{
  sync_always, Separation, State, Kernel, Ended, returned, waits, sync_log, sync_files, sync_need,
  maybe_sync, apply_entry, count_bytes, on_added, log_entry, on_appended, write_inline, write_value,
  write_entry, is_pointer_shaped,
}
use bedrockkv.Db.Write.Logging.{
  Holds, is_accepted, is_success, add_record-Holds, maybe_sync-IsSame, count_bytes-IsSame,
}

abbrev pub IsVlogDurable : Option Separation → Type 0
IsVlogDurable none = Unit
IsVlogDurable (some s) = s.vlog_synced ≡ length s.vlog.file

-- All bytes of the log and of the value log are durable.
abbrev pub IsDurable : State → Type 0
IsDurable d = (d.log_synced ≡ length d.log.file) × IsVlogDurable d.separation

sync_log-IsDurable :
    (b : Bool) (d : State)
    → IsVlogDurable d.separation
    → is_success (sync_log b d).1 ≡ true
    → IsDurable (sync_log b d).0
unfolding sync_log is_success is_ok code_eq
sync_log-IsDurable true d h good = (refl, h)
sync_log-IsDurable false d h good = absurd (cc good)

not_success :
    (k : Kernel) (d : State) (s : Separation)
    → k.vlog_fsync ≡ false
    → is_success (sync_files k d (some s)).1 ≡ true
    → ⊥
unfolding sync_files is_success is_ok code_eq
not_success k d s q good = ground (arith, q, good)

sync_files-IsDurable :
    (k : Kernel) (d : State) (o : Option Separation)
    → d.separation ≡ o
    → is_success (sync_files k d o).1 ≡ true
    → IsDurable (sync_files k d o).0
unfolding sync_files
sync_files-IsDurable k d none p good =
    sync_log-IsDurable k.log_fsync d (subst IsVlogDurable (sym p) tt) good
sync_files-IsDurable k d (some s) p good = split k.vlog_fsync refl
  where
    split : (b : Bool) → k.vlog_fsync ≡ b → IsDurable (sync_files k d (some s)).0
    split true q = rw q (
        sync_log-IsDurable k.log_fsync
          (record d { separation = some (record s { vlog_synced = length s.vlog.file }) }) refl
          (sym (rw q refl) ∙ good))
    split false q = absurd (not_success k d s q good)

maybe_sync-IsDurable :
    (k : Kernel) (d : State)
    → d.sync_mode ≡ sync_always
    → is_success (maybe_sync k d).1 ≡ true
    → IsDurable (maybe_sync k d).0
unfolding maybe_sync sync_need
maybe_sync-IsDurable k d always good =
    let mode : maybe_sync k d ≡ sync_files k d d.separation = rw always refl in
    subst (λ (y : State × Ended). IsDurable y.0) (sym mode)
      (sync_files-IsDurable k d d.separation refl
        (sym (ap (λ (y : State × Ended). is_success y.1) mode) ∙ good))

apply_entry-IsDurable :
    (r : LogRecord) (y : State × Ended)
    → (is_success y.1 ≡ true → IsDurable y.0)
    → is_success (apply_entry r y).1 ≡ true
    → IsDurable (apply_entry r y).0
unfolding apply_entry is_success
apply_entry-IsDurable r (d, waits) h good = absurd (cc good)
apply_entry-IsDurable r (d, returned s) h good = split (is_ok s) refl
  where
    split : (b : Bool) → is_ok s ≡ b → IsDurable (apply_entry r (d, returned s)).0
    split true p = rw p (h p)
    split false p = absurd (ground (arith, p, good))

count_bytes-mode : (b : Bool) (n : ℕ) (d : State) → (count_bytes b n d).sync_mode ≡ d.sync_mode
unfolding count_bytes
count_bytes-mode true n d = refl
count_bytes-mode false n d = refl

-- The state that `MaybeSync` gets, behind a record that was added.
abbrev added_state : Bool → ℕ → State → Writer → State
added_state c size d w = count_bytes c size (record d {
  log = w;
  unsynced_bytes = d.unsynced_bytes + (w.file_offset - d.log.file_offset);
  stats_wal_bytes = d.stats_wal_bytes + (w.file_offset - d.log.file_offset);
})

on_added-IsDurable :
    (k : Kernel) (c : Bool) (size : ℕ) (r : LogRecord) (d : State) (x : Writer × Added)
    → d.sync_mode ≡ sync_always
    → is_success (on_added k c size r d x).1 ≡ true
    → IsDurable (on_added k c size r d x).0
unfolding on_added is_success
on_added-IsDurable k c size r d (w, add_waiting) always good = absurd (cc good)
on_added-IsDurable k c size r d (w, added s) always good = split (is_ok s) refl
  where
    split : (b : Bool) → is_ok s ≡ b → IsDurable (on_added k c size r d (w, added s)).0
    split false p = absurd (ground (arith, p, good))
    split true p =
        let e : State = added_state c size d w in
        let mode = count_bytes-mode c size _ ∙ always in
        rw p (
          apply_entry-IsDurable r (maybe_sync k e) (maybe_sync-IsDurable k e mode)
            (sym (rw p refl) ∙ good))

log_entry-IsDurable :
    (k : Kernel) (c : Bool) (size : ℕ) (r : LogRecord) (d : State)
    → d.sync_mode ≡ sync_always
    → is_success (log_entry k c size r d).1 ≡ true
    → IsDurable (log_entry k c size r d).0
unfolding log_entry
log_entry-IsDurable k c size r d always good =
    on_added-IsDurable k c size r d (add_record k.log_writes (logged r) d.log) always good

on_appended-IsDurable :
    (k : Kernel) (c : Bool) (key value : Bytes) (d : State) (s : Separation) (x : Vlog × Appended)
    → d.sync_mode ≡ sync_always
    → is_success (on_appended k c key value d s x).1 ≡ true
    → IsDurable (on_appended k c key value d s x).0
unfolding on_appended is_success is_ok code_eq
on_appended-IsDurable k c key value d s (v, append_waiting) always good = absurd (cc good)
on_appended-IsDurable k c key value d s (v, append_failed) always good = absurd (cc good)
on_appended-IsDurable k c key value d s (v, appended offset size) always good =
    log_entry-IsDurable k c (length key + length value) _
      (record d {
        separation = some (record s { vlog = v });
        unsynced_bytes = d.unsynced_bytes + size;
        stats_vlog_bytes = d.stats_vlog_bytes + size;
      })
      always good

write_value-IsDurable :
    (k : Kernel) (c : Bool) (key value : Bytes) (d : State) (o : Option Separation)
    → d.sync_mode ≡ sync_always
    → is_success (write_value k c key value d o).1 ≡ true
    → IsDurable (write_value k c key value d o).0
unfolding write_value write_inline
write_value-IsDurable k c key value d none always good =
    log_entry-IsDurable k c (length key + length value) _ d always good
write_value-IsDurable k c key value d (some s) always good =
    split (leb s.threshold (length value) || is_pointer_shaped value) refl
  where
    split :
        (b : Bool)
        → (leb s.threshold (length value) || is_pointer_shaped value) ≡ b
        → IsDurable (write_value k c key value d (some s)).0
    split true p =
        let x = append s.vlog k.vlog_writes k.vlog_seek key value in
        rw p (on_appended-IsDurable k c key value d s x always (sym (rw p refl) ∙ good))
    split false p =
        let r : LogRecord = record {
          seq = d.next_seq;
          type = type_value;
          key = key;
          value = value;
        } in
        rw p
          (log_entry-IsDurable k c (length key + length value) r d always (sym (rw p refl) ∙ good))

-- When WriteEntry returns without an error while every write is synced, all bytes of the log and
-- of the value log are durable.
pub write_entry-IsDurable :
    (k : Kernel) (c : Bool) (type : ℕ) (key value : Bytes) (d : State)
    → d.sync_mode ≡ sync_always
    → is_success (write_entry k c type key value d).1 ≡ true
    → IsDurable (write_entry k c type key value d).0
unfolding write_entry write_inline
write_entry-IsDurable k c type key value d always good = split (type == type_value) refl
  where
    split : (b : Bool) → (type == type_value) ≡ b → IsDurable (write_entry k c type key value d).0
    split true p =
        rw p (write_value-IsDurable k c key value d d.separation always (sym (rw p refl) ∙ good))
    split false p =
        let r : LogRecord = record { seq = d.next_seq; type = type; key = key; value = value } in
        rw p
          (log_entry-IsDurable k c (length key + length value) r d always (sym (rw p refl) ∙ good))

apply_entry-failed :
    (r : LogRecord) (y : State × Ended)
    → is_success (apply_entry r y).1 ≡ false
    → (apply_entry r y).0 ≡ y.0
unfolding apply_entry is_success is_ok code_eq
apply_entry-failed r (d, waits) bad = refl
apply_entry-failed r (d, returned s) bad = split (is_ok s) refl
  where
    split : (b : Bool) → is_ok s ≡ b → (apply_entry r (d, returned s)).0 ≡ d
    split true p = absurd (ground (arith, p, bad))
    split false p = rw p refl

on_added-failed_sync :
    (k : Kernel) (c : Bool) (size : ℕ) (r : LogRecord) (d : State) (x : Writer × Added)
    → Holds x.0 (d.mem.records ++ r ∷ [])
    → is_accepted x.1 ≡ true
    → is_success (on_added k c size r d x).1 ≡ false
    → Holds (on_added k c size r d x).0.log (d.mem.records ++ r ∷ [])
      × ((on_added k c size r d x).0.mem ≡ d.mem)
      × ((on_added k c size r d x).0.next_seq ≡ d.next_seq)
unfolding on_added is_accepted
on_added-failed_sync k c size r d (w, add_waiting) h good bad = absurd (cc good)
on_added-failed_sync k c size r d (w, added s) h good bad =
    let e : State = added_state c size d w in
    let counted = count_bytes-IsSame c size _ in
    let synced = maybe_sync-IsSame k e in
    let stays : (on_added k c size r d (w, added s)).0 ≡ (maybe_sync k e).0 =
      rw good (apply_entry-failed r (maybe_sync k e) (sym (rw good refl) ∙ bad)) in
    (
      subst (λ (v : Writer). Holds v (d.mem.records ++ r ∷ []))
          (sym (ap (λ (f : State). f.log) stays ∙ synced.0 ∙ counted.0)) h,
      ap (λ (f : State). f.mem) stays ∙ synced.1 ∙ counted.1,
      ap (λ (f : State). f.next_seq) stays ∙ synced.2 ∙ counted.2,
    )

-- A write whose record was added to the log but which returns an error leaves the memory table
-- and the next sequence number as they were, while the log holds the record behind the others.
pub log_entry-failed_sync :
    (k : Kernel) (c : Bool) (size : ℕ) (r : LogRecord) (d : State)
    → Holds d.log d.mem.records
    → is_accepted (add_record k.log_writes (logged r) d.log).1 ≡ true
    → is_success (log_entry k c size r d).1 ≡ false
    → Holds (log_entry k c size r d).0.log (d.mem.records ++ r ∷ [])
      × ((log_entry k c size r d).0.mem ≡ d.mem)
      × ((log_entry k c size r d).0.next_seq ≡ d.next_seq)
unfolding log_entry
log_entry-failed_sync k c size r d h good bad =
    on_added-failed_sync k c size r d (add_record k.log_writes (logged r) d.log)
      (add_record-Holds d.log d.mem.records r k.log_writes h good) good bad
