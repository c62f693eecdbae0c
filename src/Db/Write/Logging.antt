-- ===== src/Db/Write/Logging.antt =====
-- What `WriteEntry` (src/db.cpp) leaves in the log.
use bedrockkv.Prelude.{
  ℕ, ◌+◌, ◌≡◌, refl, ap, sym, ◌∙◌, subst, Bool, true, false, inl, inr, Bool-cases, Option, none,
  some, List, [], ◌∷◌, ◌++◌, map, append_assoc, append-nil, arith, Bytes, All, length,
  length-append,
}
use bedrockkv.Status.{is_ok, code_eq}
use bedrockkv.Io.{WriteAnswer, WriteResult, all_written, write_failed, still_waiting, write_all}
use bedrockkv.Io.WriteAll.{write_all-done}
use bedrockkv.Wal
use bedrockkv.Wal.{Writer, Added, added, add_waiting, add_end, add_record}
use bedrockkv.Wal.Log.{log_bytes}
use bedrockkv.Db.Record.{LogRecord}
use bedrockkv.Db.Replay.Recovery.{IsWrite, logged, logged_file}
use bedrockkv.Db.Write.{
  Memory, memory_add, Separation, State, Kernel, Ended, returned, waits, sync_log, sync_files,
  sync_if, sync_need, maybe_sync, apply_entry, count_bytes,
}

log_bytes-snoc :
    (o : ℕ) (ps : List Bytes) (p : Bytes)
    → log_bytes o (ps ++ p ∷ [])
      ≡ log_bytes o ps ++ Wal.encode_record p (o + length (log_bytes o ps))
log_bytes-snoc o [] p = append-nil (Wal.encode_record p o) ∙ ap (Wal.encode_record p) (omega arith)
log_bytes-snoc o (q ∷ ps) p =
    let here = Wal.encode_record q o in
    let next = o + length here in
    ap (λ (l : Bytes). here ++ l) (log_bytes-snoc next ps p)
    ∙ sym (
        append_assoc here (log_bytes next ps)
          (Wal.encode_record p (next + length (log_bytes next ps))))
    ∙ ap (λ (n : ℕ). (here ++ log_bytes next ps) ++ Wal.encode_record p n)
        (omega (arith, length-append here (log_bytes next ps)))

map-snoc :
    (rs : List LogRecord) (r : LogRecord)
    → map logged (rs ++ r ∷ []) ≡ map logged rs ++ logged r ∷ []
map-snoc [] r = refl
map-snoc (x ∷ rs) r = ap (λ (l : List Bytes). logged x ∷ l) (map-snoc rs r)

logged_file-snoc :
    (rs : List LogRecord) (r : LogRecord)
    → logged_file (rs ++ r ∷ [])
      ≡ logged_file rs ++ Wal.encode_record (logged r) (length (logged_file rs))
logged_file-snoc rs r =
    ap (log_bytes 0) (map-snoc rs r)
    ∙ log_bytes-snoc 0 (map logged rs) (logged r)
    ∙ ap (λ (n : ℕ). logged_file rs ++ Wal.encode_record (logged r) n) (omega arith)

-- The log holds the records, and the next one goes behind them.
abbrev pub Holds : Writer → List LogRecord → Type 0
Holds w rs = (w.file ≡ logged_file rs) × (w.file_offset ≡ length w.file)

-- The log holds what the memory table has.
abbrev pub IsLogged : State → Type 0
IsLogged d = Holds d.log d.mem.records × All IsWrite d.mem.records

-- A call that returned without an error.
unfoldable pub is_accepted : Added → Bool
is_accepted (added s) = is_ok s
is_accepted add_waiting = false

unfoldable pub is_success : Ended → Bool
is_success (returned s) = is_ok s
is_success waits = false

-- `AddRecord` that returned well wrote the record behind the others.
add_end-Holds :
    (w : Writer) (rs : List LogRecord) (r : LogRecord) (answers : List WriteAnswer)
    (out : Bytes × WriteResult)
    → out ≡ write_all answers (Wal.encode_record (logged r) w.file_offset) w.file
    → Holds w rs
    → is_accepted (add_end w out (length (Wal.encode_record (logged r) w.file_offset))).1 ≡ true
    → Holds (add_end w out (length (Wal.encode_record (logged r) w.file_offset))).0 (rs ++ r ∷ [])
unfolding add_end is_accepted is_ok code_eq
add_end-Holds w rs r answers (file, all_written) e h good =
    let bytes = Wal.encode_record (logged r) w.file_offset in
    let grown : file ≡ w.file ++ bytes =
      ap (λ (o : Bytes × WriteResult). o.0) e
      ∙ write_all-done answers bytes w.file (sym (ap (λ (o : Bytes × WriteResult). o.1) e)) in
    (
      grown
          ∙ ap (λ (l : Bytes). l ++ bytes) h.0
          ∙ ap (λ (n : ℕ). logged_file rs ++ Wal.encode_record (logged r) n) (h.1 ∙ ap length h.0)
          ∙ sym (logged_file-snoc rs r),
      omega (arith, h.1, ap length grown, length-append w.file bytes),
    )
add_end-Holds w rs r answers (file, write_failed) e h good = absurd (cc good)
add_end-Holds w rs r answers (file, still_waiting) e h good = absurd (cc good)

pub add_record-Holds :
    (w : Writer) (rs : List LogRecord) (r : LogRecord) (answers : List WriteAnswer)
    → Holds w rs
    → is_accepted (add_record answers (logged r) w).1 ≡ true
    → Holds (add_record answers (logged r) w).0 (rs ++ r ∷ [])
unfolding add_record
add_record-Holds w rs r answers h good =
    add_end-Holds w rs r answers
      (write_all answers (Wal.encode_record (logged r) w.file_offset) w.file) refl h good

-- A sync leaves the log, the memory table and the sequence number.
abbrev pub IsSame : State → State → Type 0
IsSame d e = (e.log ≡ d.log) × (e.mem ≡ d.mem) × (e.next_seq ≡ d.next_seq)

sync_log-IsSame : (b : Bool) (d : State) → IsSame d (sync_log b d).0
unfolding sync_log
sync_log-IsSame true d = (refl, refl, refl)
sync_log-IsSame false d = (refl, refl, refl)

sync_files-IsSame : (k : Kernel) (d : State) (o : Option Separation) → IsSame d (sync_files k d o).0
unfolding sync_files
sync_files-IsSame k d none = sync_log-IsSame k.log_fsync d
sync_files-IsSame k d (some s) = elim (Bool-cases k.vlog_fsync) [
  | inl synced ↦ rw synced (
      sync_log-IsSame k.log_fsync
        (record d { separation = some (record s { vlog_synced = length s.vlog.file }) }))
  | inr refused ↦ rw refused (refl, refl, refl)
]

sync_if-IsSame : (k : Kernel) (d : State) (o : Option Bool) → IsSame d (sync_if k d o).0
unfolding sync_if
sync_if-IsSame k d none = (refl, refl, refl)
sync_if-IsSame k d (some true) = sync_files-IsSame k d d.separation
sync_if-IsSame k d (some false) = (refl, refl, refl)

pub maybe_sync-IsSame : (k : Kernel) (d : State) → IsSame d (maybe_sync k d).0
unfolding maybe_sync
maybe_sync-IsSame k d = sync_if-IsSame k d (sync_need d.sync_mode d.unsynced_bytes)

-- A state in which the record is logged, but not yet in the memory table.
abbrev pub IsAhead : LogRecord → State → Type 0
IsAhead r d = Holds d.log (d.mem.records ++ r ∷ []) × All IsWrite (d.mem.records ++ r ∷ [])

pub IsAhead-same : (r : LogRecord) (d e : State) → IsSame d e → IsAhead r d → IsAhead r e
IsAhead-same r d e same h = (
  subst (λ (w : Writer). Holds w (e.mem.records ++ r ∷ [])) (sym same.0)
      (subst (λ (m : Memory). Holds d.log (m.records ++ r ∷ [])) (sym same.1) h.0),
  subst (λ (m : Memory). All IsWrite (m.records ++ r ∷ [])) (sym same.1) h.1,
)

pub apply_entry-IsLogged :
    (r : LogRecord) (y : State × Ended)
    → IsAhead r y.0
    → is_success (apply_entry r y).1 ≡ true
    → IsLogged (apply_entry r y).0
unfolding apply_entry is_success memory_add is_ok code_eq
apply_entry-IsLogged r (d, waits) h good = absurd (cc good)
apply_entry-IsLogged r (d, returned s) h good = split (is_ok s) refl
  where
    split : (b : Bool) → is_ok s ≡ b → IsLogged (apply_entry r (d, returned s)).0
    split true p = rw p h
    split false p = absurd (ground (arith, p, good))

pub count_bytes-IsSame : (b : Bool) (n : ℕ) (d : State) → IsSame d (count_bytes b n d)
unfolding count_bytes
count_bytes-IsSame true n d = (refl, refl, refl)
count_bytes-IsSame false n d = (refl, refl, refl)
