-- ===== src/Db/Write/Entering.antt =====
-- What a write and a rotation (`WriteEntry`, `RotateForFlush`, src/db.cpp) leave: the log holds what the
-- memory table has.
use bedrockkv.Prelude.{
  ℕ, ◌+◌, ◌-◌, ◌%◌, ◌^◌, ◌<◌, ◌≡◌, refl, sym, ◌∙◌, Bool, true, false, ◌||◌, Option, none, some, [],
  ◌∷◌, ◌++◌, arith, Bytes, IsU32, IsU64, All-append, length, length-append, leb,
}
use bedrockkv.Status.{is_ok, code_eq}
use bedrockkv.Encoding.RoundTrip.{length-fixed32, length-fixed64}
use bedrockkv.Encoding.{fixed32, fixed64}
use bedrockkv.Key.{type_deletion, type_value}
use bedrockkv.Vlog.{
  Vlog, Appended, appended, append_failed, append_waiting, append, encode_value_pointer,
  ValuePointer,
}
use bedrockkv.Wal.{Writer, Added, added, add_waiting, add_record}
use bedrockkv.Db.Record.{LogRecord}
use bedrockkv.Db.Replay.Recovery.{IsWrite, of_put, of_delete, logged}
use bedrockkv.Db.Write.{
  Separation, State, Kernel, maybe_sync, apply_entry, count_bytes, on_added, log_entry, on_appended,
  write_inline, write_value, write_entry, is_pointer_shaped,
}
use bedrockkv.Db.Write.Calls.{switched, rotate}
use bedrockkv.Db.Write.Logging.{
  Holds, IsLogged, is_accepted, is_success, add_record-Holds, maybe_sync-IsSame, IsAhead,
  IsAhead-same, apply_entry-IsLogged, count_bytes-IsSame,
}

on_added-IsLogged :
    (k : Kernel) (c : Bool) (size : ℕ) (r : LogRecord) (d : State) (x : Writer × Added)
    → IsLogged d
    → IsWrite r
    → (is_accepted x.1 ≡ true → Holds x.0 (d.mem.records ++ r ∷ []))
    → is_success (on_added k c size r d x).1 ≡ true
    → IsLogged (on_added k c size r d x).0
unfolding on_added is_success is_accepted
on_added-IsLogged k c size r d (w, add_waiting) h write holds good = absurd (cc good)
on_added-IsLogged k c size r d (w, added s) h write holds good = split (is_ok s) refl
  where
    split : (b : Bool) → is_ok s ≡ b → IsLogged (on_added k c size r d (w, added s)).0
    split false p = absurd (ground (arith, p, good))
    split true p =
        let e : State = record d {
          log = w;
          unsynced_bytes = d.unsynced_bytes + (w.file_offset - d.log.file_offset);
          stats_wal_bytes = d.stats_wal_bytes + (w.file_offset - d.log.file_offset);
        } in
        let counted = count_bytes c size e in
        let ahead : IsAhead r e =
          (holds p, All-append IsWrite d.mem.records (r ∷ []) (write, tt) h.1) in
        let ready =
          IsAhead-same r counted (maybe_sync k counted).0 (maybe_sync-IsSame k counted)
            (IsAhead-same r e counted (count_bytes-IsSame c size e) ahead) in
        let good' : is_success (apply_entry r (maybe_sync k counted)).1 ≡ true =
          sym (rw p refl) ∙ good in
        rw p (apply_entry-IsLogged r (maybe_sync k counted) ready good')

log_entry-IsLogged :
    (k : Kernel) (c : Bool) (size : ℕ) (r : LogRecord) (d : State)
    → IsLogged d
    → IsWrite r
    → is_success (log_entry k c size r d).1 ≡ true
    → IsLogged (log_entry k c size r d).0
unfolding log_entry
log_entry-IsLogged k c size r d h write good =
    on_added-IsLogged k c size r d (add_record k.log_writes (logged r) d.log) h write
      (add_record-Holds d.log d.mem.records r k.log_writes h.0) good

length-encode_value_pointer : (p : ValuePointer) → length (encode_value_pointer p) ≡ 21
unfolding encode_value_pointer
length-encode_value_pointer p = omega (
  arith,
  length-append (fixed64 p.vlog_number) (fixed64 p.offset ++ fixed32 p.value_size),
  length-append (fixed64 p.offset) (fixed32 p.value_size),
  length-fixed64 p.vlog_number,
  length-fixed64 p.offset,
  length-fixed32 p.value_size,
)

on_appended-IsLogged :
    (k : Kernel) (c : Bool) (key value : Bytes) (d : State) (s : Separation) (x : Vlog × Appended)
    → IsLogged d
    → IsU64 d.next_seq
    → length key < 2 ^ 32 - 17
    → is_success (on_appended k c key value d s x).1 ≡ true
    → IsLogged (on_appended k c key value d s x).0
unfolding on_appended is_success is_ok code_eq
on_appended-IsLogged k c key value d s (v, append_waiting) h hs hk good = absurd (cc good)
on_appended-IsLogged k c key value d s (v, append_failed) h hs hk good = absurd (cc good)
on_appended-IsLogged k c key value d s (v, appended offset size) h hs hk good =
    log_entry-IsLogged k c (length key + length value) _
      (record d {
        separation = some (record s { vlog = v });
        unsynced_bytes = d.unsynced_bytes + size;
        stats_vlog_bytes = d.stats_vlog_bytes + size;
      })
      h
      (of_put refl hs hk (
        omega (
          arith,
          length-encode_value_pointer (record {
            vlog_number = v.number;
            offset = offset;
            value_size = length value % 2 ^ 32;
          }),
        )))
      good

write_value-IsLogged :
    (k : Kernel) (c : Bool) (key value : Bytes) (d : State) (o : Option Separation)
    → IsLogged d
    → IsU64 d.next_seq
    → length key < 2 ^ 32 - 17
    → IsU32 (length value)
    → is_success (write_value k c key value d o).1 ≡ true
    → IsLogged (write_value k c key value d o).0
unfolding write_value write_inline
write_value-IsLogged k c key value d none h hs hk hv good =
    log_entry-IsLogged k c (length key + length value) _ d h (of_put refl hs hk hv) good
write_value-IsLogged k c key value d (some s) h hs hk hv good =
    split (leb s.threshold (length value) || is_pointer_shaped value) refl good
  where
    split :
        (b : Bool)
        → (leb s.threshold (length value) || is_pointer_shaped value) ≡ b
        → is_success (write_value k c key value d (some s)).1 ≡ true
        → IsLogged (write_value k c key value d (some s)).0
    split true p g =
        let x = append s.vlog k.vlog_writes k.vlog_seek key value in
        let g' : is_success (on_appended k c key value d s x).1 ≡ true = sym (rw p refl) ∙ g in
        rw p (on_appended-IsLogged k c key value d s x h hs hk g')
    split false p g =
        let r : LogRecord = record {
          seq = d.next_seq;
          type = type_value;
          key = key;
          value = value;
        } in
        let g' : is_success (log_entry k c (length key + length value) r d).1 ≡ true =
          sym (rw p refl) ∙ g in
        rw p (log_entry-IsLogged k c (length key + length value) r d h (of_put refl hs hk hv) g')

pub write_put-IsLogged :
    (k : Kernel) (c : Bool) (key value : Bytes) (d : State)
    → IsLogged d
    → IsU64 d.next_seq
    → length key < 2 ^ 32 - 17
    → IsU32 (length value)
    → is_success (write_entry k c type_value key value d).1 ≡ true
    → IsLogged (write_entry k c type_value key value d).0
unfolding write_entry
write_put-IsLogged k c key value d h hs hk hv good =
    write_value-IsLogged k c key value d d.separation h hs hk hv good

pub write_delete-IsLogged :
    (k : Kernel) (c : Bool) (key : Bytes) (d : State)
    → IsLogged d
    → IsU64 d.next_seq
    → length key < 2 ^ 32 - 17
    → is_success (write_entry k c type_deletion key [] d).1 ≡ true
    → IsLogged (write_entry k c type_deletion key [] d).0
unfolding write_entry write_inline
write_delete-IsLogged k c key d h hs hk good =
    log_entry-IsLogged k c (length key + 0) _ d h (of_delete refl refl hs (omega (arith, hk))) good

-- Behind a rotation the log and the memory table are both empty.
switched-IsLogged : (d : State) → IsLogged (switched d)
unfolding switched
switched-IsLogged d = ((refl, refl), tt)

pub rotate-IsLogged :
    (k : Kernel) (d : State)
    → IsLogged d
    → IsLogged (rotate k d).0 × ((rotate k d).0.next_seq ≡ d.next_seq)
unfolding rotate switched
rotate-IsLogged k d h = split k.open_log k.fsync_new_log (is_ok k.sync_dir) refl refl refl
  where
    split :
        (made synced named : Bool)
        → k.open_log ≡ made
        → k.fsync_new_log ≡ synced
        → is_ok k.sync_dir ≡ named
        → IsLogged (rotate k d).0 × ((rotate k d).0.next_seq ≡ d.next_seq)
    split false synced named p q r = rw p (h, refl)
    split true false named p q r = rw (p, q) (h, refl)
    split true true false p q r = rw (p, q, r) (h, refl)
    split true true true p q r = rw (p, q, r) (switched-IsLogged d, refl)
