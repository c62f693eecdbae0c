-- ===== src/Db/Replay/Recovery.antt =====
-- What a replay recovers from the records that `WriteEntry` logged.
use bedrockkv.Prelude.{
  ℕ, suc, ◌+◌, ◌-◌, ◌%◌, ◌^◌, ◌≤◌, ◌<◌, ◌≡◌, refl, ap, ◌∙◌, subst, true, List, All, [], ◌∷◌, ◌++◌,
  map, append_assoc, append-nil, some, arith, Bytes, IsU32, IsU64, length, length-append,
}
use bedrockkv.Key.{type_value, type_deletion}
use bedrockkv.Wal.{header_size, encode_record}
use bedrockkv.Wal.Reader.{Reader, Fill, IsFaithful, payload, log_end, read_record, fresh}
use bedrockkv.Wal.Record.{length-encode_loop}
use bedrockkv.Wal.RoundTrip.{Stands, fresh-Stands, read_record-encode_record}
use bedrockkv.Wal.Log.{log_bytes, read_record_short}
use bedrockkv.Db.Record
use bedrockkv.Db.Record.{LogRecord, parse_record}
use bedrockkv.Db.Record.RoundTrip.{parse_record-put, parse_record-delete}
use bedrockkv.Db.Replay.{
  whole, Replayed, apply_record, replay_payload, replay_continue, replay_loop, replay,
}

-- A record that `WriteEntry` makes: a value, or a deletion without one.
pub data IsWrite (rec : LogRecord) : Type 0 where
  of_put :
      rec.type ≡ type_value
      → IsU64 rec.seq
      → length rec.key < 2 ^ 32 - 17
      → IsU32 (length rec.value)
      → IsWrite rec
  of_delete :
      rec.type ≡ type_deletion
      → rec.value ≡ []
      → IsU64 rec.seq
      → length rec.key < 2 ^ 32 - 13
      → IsWrite rec

abbrev pub logged : LogRecord → Bytes
logged rec = Record.encode_record rec.seq rec.type rec.key rec.value

abbrev pub logged_file : List LogRecord → Bytes
logged_file recs = log_bytes 0 (map logged recs)

parse_record-logged : (rec : LogRecord) → IsWrite rec → parse_record (logged rec) ≡ some rec
parse_record-logged rec (of_put t s k v) =
    rw t (parse_record-put rec.seq rec.key rec.value s k v ∙ rw (← t) refl)
parse_record-logged rec (of_delete t v s k) =
    rw t (parse_record-delete rec.seq rec.key rec.value s k ∙ rw (← t, v) refl)

abbrev pub with_applied : List LogRecord → Replayed → Replayed
with_applied recs run = record { applied = recs ++ run.applied; ending = run.ending }

replay_loop-suc :
    (fuel end : ℕ) (fill : Bytes → Fill) (r r' : Reader) (rec : LogRecord) (p : Bytes)
    → read_record fill r ≡ (payload p, r')
    → parse_record p ≡ some rec
    → replay_loop (suc fuel) fill end r
      ≡ apply_record rec (replay_loop fuel fill r'.last_good_end r')
unfolding replay_loop replay_continue replay_payload
replay_loop-suc fuel end fill r r' rec p h k = rw (h, k) refl

apply_record-with_applied :
    (rec : LogRecord) (recs : List LogRecord) (run : Replayed)
    → apply_record rec (with_applied recs run) ≡ with_applied (rec ∷ recs) run
unfolding apply_record
apply_record-with_applied rec recs run = refl

length-encode_record : (p : Bytes) (o : ℕ) → 1 ≤ length (encode_record p o)
unfolding encode_record
length-encode_record p o =
    let more : length p + 2 ≡ suc (length p + 1) = omega arith in
    rw more (omega (arith, length-encode_loop (length p + 1) (o % 32768) true p))

length-log_bytes : (o : ℕ) (ps : List Bytes) → length ps ≤ length (log_bytes o ps)
length-log_bytes o [] = omega arith
length-log_bytes o (p ∷ ps) = omega (
  arith,
  length-encode_record p o,
  length-log_bytes (o + length (encode_record p o)) ps,
  length-append (encode_record p o) (log_bytes (o + length (encode_record p o)) ps),
)

length-map : (recs : List LogRecord) → length (map logged recs) ≡ length recs
length-map [] = refl
length-map (rec ∷ recs) = omega (arith, length-map recs)

module _ (fill : Bytes → Fill) (faithful : IsFaithful fill) where
  replay_loop-logged :
      (recs : List LogRecord) (o fuel end : ℕ) (r : Reader) (tail : Bytes)
      → All IsWrite recs
      → Stands r o (log_bytes o (map logged recs) ++ tail)
      → (r' : Reader) × (end' : ℕ) × (replay_loop (length recs + fuel) fill end r
          ≡ with_applied recs (replay_loop fuel fill end' r'))
        × Stands r' (o + length (log_bytes o (map logged recs))) tail
  replay_loop-logged [] o fuel end r tail good h = (
    r,
    end,
    ap (λ (n : ℕ). replay_loop n fill end r) (omega arith),
    subst (λ (n : ℕ). Stands r n tail) (omega arith) h,
  )
  replay_loop-logged (rec ∷ recs) o fuel end r tail good h =
      let p : Bytes = logged rec in
      let o' : ℕ = o + length (encode_record p o) in
      let h' : Stands r o (encode_record p o ++ (log_bytes o' (map logged recs) ++ tail)) =
        subst (Stands r o) (append_assoc (encode_record p o) (log_bytes o' (map logged recs)) tail)
          h in
      let (r₁, got, behind, end₁) =
        read_record-encode_record fill faithful r o p (log_bytes o' (map logged recs) ++ tail) h' in
      let (r₂, end₂, later, behind₂) =
        replay_loop-logged recs o' fuel r₁.last_good_end r₁ tail good.1 behind in
      let size : o' + length (log_bytes o' (map logged recs))
          ≡ o + length (log_bytes o (map logged (rec ∷ recs))) =
        omega (arith, length-append (encode_record p o) (log_bytes o' (map logged recs))) in
      (
        r₂,
        end₂,
        ap (λ (n : ℕ). replay_loop n fill end r) (omega arith)
            ∙ replay_loop-suc (length recs + fuel) end fill r r₁ rec p got
                (parse_record-logged rec good.0)
            ∙ ap (apply_record rec) later
            ∙ apply_record-with_applied rec recs (replay_loop fuel fill end₂ r₂),
        subst (λ (n : ℕ). Stands r₂ n tail) size behind₂,
      )

  replay_loop-end :
      (fuel end : ℕ) (r r' : Reader)
      → read_record fill r ≡ (log_end, r')
      → replay_loop (suc fuel) fill end r ≡ record { applied = []; ending = whole }
  unfolding replay_loop replay_continue
  replay_loop-end fuel end r r' h = rw h refl

  -- A replay of a log that holds the records of any puts and deletes whose sequence numbers are
  -- below 2^64, whose values are below 2^32 bytes and whose keys are below 2^32 - 17 bytes in a
  -- put and 2^32 - 13 in a delete, with fewer bytes than a header behind them, applies exactly
  -- these records in order and cuts nothing.
  pub replay-logged :
      (recs : List LogRecord) (tail : Bytes)
      → All IsWrite recs
      → length tail < header_size
      → replay fill (logged_file recs ++ tail) ≡ record { applied = recs; ending = whole }
  unfolding replay
  replay-logged recs tail good short =
      let file : Bytes = logged_file recs ++ tail in
      let spare : ℕ = length file - length recs in
      let fuel : length file + 1 ≡ length recs + suc spare = omega (
        arith,
        length-append (logged_file recs) tail,
        length-log_bytes 0 (map logged recs),
        length-map recs,
      ) in
      let (r₁, end₁, all, behind) =
        replay_loop-logged recs 0 (suc spare) 0 (fresh file) tail good (fresh-Stands file) in
      let (r₂, ended, same) =
        read_record_short fill faithful r₁ (0 + length (logged_file recs)) tail behind short in
      rw fuel (all ∙ rw (replay_loop-end spare end₁ r₁ r₂ ended, append-nil recs) refl)
