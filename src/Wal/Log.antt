-- ===== src/Wal/Log.antt =====
-- A whole log: what a run of `AddRecord` leaves in the file, and what a run of `ReadRecord`
-- makes of it, as the replay loop of `DB::Open` (src/db.cpp) calls it.
use bedrockkv.Prelude.{
  ℕ, zero, suc, ◌+◌, ◌<◌, ◌≡◌, refl, ap, ◌∙◌, subst, [], ◌∷◌, ◌++◌, append-nil, append_assoc, arith,
  Bytes, List, length, length-append,
}
use bedrockkv.Wal.{header_size, encode_record}
use bedrockkv.Wal.Reader.{
  Reader, Fill, IsFaithful, ReadResult, payload, log_end, corruption_at, out_of_fuel, record_loop,
  record_step, read_record, fresh,
}
use bedrockkv.Wal.Position.{At}
use bedrockkv.Wal.Physical.{read_physical_record_short}
use bedrockkv.Wal.RoundTrip.{Stands, fresh-Stands, read_record-encode_record}

-- The records of the payloads, one behind the other, from offset `o` of the log on.
abbrev pub log_bytes : ℕ → List Bytes → Bytes
log_bytes o [] = []
log_bytes o (p ∷ ps) = encode_record p o ++ log_bytes (o + length (encode_record p o)) ps

-- How a run of calls of `ReadRecord` went: the payloads, and what the last call returned.
pub record Run : Type 0 where
  pub payloads : List Bytes
  pub last : ReadResult
  pub reader : Reader

unfoldable pub add_payload : Bytes → Run → Run
add_payload p run = record run { payloads = p ∷ run.payloads }

unfoldable pub run_continue : (Reader → Run) → ReadResult × Reader → Run
unfolding add_payload
run_continue next (payload p, r) = add_payload p (next r)
run_continue next (log_end, r) = record { payloads = []; last = log_end; reader = r }
run_continue next (corruption_at n, r) = record {
  payloads = [];
  last = corruption_at n;
  reader = r;
}
run_continue next (out_of_fuel, r) = record { payloads = []; last = out_of_fuel; reader = r }

-- Calls of `ReadRecord` until one does not return a payload.
unfoldable pub read_all : ℕ → (Bytes → Fill) → Reader → Run
unfolding run_continue
read_all zero fill r = record { payloads = []; last = out_of_fuel; reader = r }
read_all (suc fuel) fill r = run_continue (read_all fuel fill) (read_record fill r)

add_payload_lem :
    (p : Bytes) (ps : List Bytes) (last : ReadResult) (r : Reader)
    → add_payload p (record { payloads = ps; last = last; reader = r })
      ≡ record { payloads = p ∷ ps; last = last; reader = r }
unfolding add_payload
add_payload_lem p ps last r = refl

module _ (fill : Bytes → Fill) (faithful : IsFaithful fill) where
  read_all-suc :
      (fuel : ℕ) (r r' : Reader) (p : Bytes)
      → read_record fill r ≡ (payload p, r')
      → read_all (suc fuel) fill r ≡ add_payload p (read_all fuel fill r')
  unfolding read_all
  read_all-suc fuel r r' p h = rw h refl

  -- Less than a header behind the last record: the call reports the end of the log.
  pub read_record_short :
      (r : Reader) (o : ℕ) (rest : Bytes)
      → Stands r o rest
      → length rest < header_size
      → (r' : Reader) × (read_record fill r ≡ (log_end, r')) × (r'.last_good_end ≡ r.last_good_end)
  unfolding read_record record_loop record_step
  read_record_short r o rest h short =
      let fuel : length r.file + length r.buffer + 2 ≡ suc (length r.file + length r.buffer + 1) =
        omega arith in
      let here : At (record r { scratch = [] }) h.b o rest = record {
        within = h.at.within;
        in_buffer = h.at.in_buffer;
        in_file = h.at.in_file;
        at_eof = h.at.at_eof;
        pos_le = h.at.pos_le;
        counted = h.at.counted;
        offset = h.at.offset;
      } in
      let (r', got) =
        read_physical_record_short fill (record r { scratch = [] }) h.b o rest faithful here
          short in
      (r', rw (fuel, got.result) refl, got.last_good)

  -- After the whole records the reader stands at the end of the last one, and says so.
  pub read_all-log_bytes :
      (ps : List Bytes) (o fuel : ℕ) (r : Reader) (tail : Bytes)
      → Stands r o (log_bytes o ps ++ tail)
      → r.last_good_end ≡ o
      → (r' : Reader) × (read_all (length ps + fuel) fill r ≡ record {
        payloads = ps ++ (read_all fuel fill r').payloads;
        last = (read_all fuel fill r').last;
        reader = (read_all fuel fill r').reader;
      })
        × Stands r' (o + length (log_bytes o ps)) tail
        × (r'.last_good_end ≡ o + length (log_bytes o ps))
  read_all-log_bytes [] o fuel r tail h good = (
    r,
    ap (λ (n : ℕ). read_all n fill r) (omega arith),
    subst (λ (n : ℕ). Stands r n tail) (omega arith) h,
    omega (arith, good),
  )
  read_all-log_bytes (p ∷ ps) o fuel r tail h good =
      let h' : Stands r o
          (encode_record p o ++ (log_bytes (o + length (encode_record p o)) ps ++ tail)) =
        subst (Stands r o)
          (append_assoc (encode_record p o) (log_bytes (o + length (encode_record p o)) ps) tail)
          h in
      let (r₁, got, behind, good₁) = read_record-encode_record fill faithful r o p _ h' in
      let (r₂, rest, behind₂, good₂) =
        read_all-log_bytes ps (o + length (encode_record p o)) fuel r₁ tail behind good₁ in
      let size : o
            + length (encode_record p o)
            + length (log_bytes (o + length (encode_record p o)) ps)
          ≡ o + length (log_bytes o (p ∷ ps)) =
        omega (
          arith,
          length-append (encode_record p o) (log_bytes (o + length (encode_record p o)) ps),
        ) in
      (
        r₂,
        ap (λ (n : ℕ). read_all n fill r) (omega arith)
            ∙ read_all-suc (length ps + fuel) r r₁ p got
            ∙ ap (add_payload p) rest
            ∙ add_payload_lem p _ _ _,
        subst (λ (n : ℕ). Stands r₂ n tail) size behind₂,
        good₂ ∙ size,
      )

  -- A file that holds the records of any payloads, as EncodeRecord lays them out one behind the
  -- other, with fewer bytes than a header behind them, is read back by ReadRecord: all payloads
  -- in order, then the end of the log, with last_good_end at the end of the last record.
  pub read_all-log :
      (ps : List Bytes) (tail : Bytes)
      → length tail < header_size
      → (r' : Reader) × (read_all (length ps + 1) fill (fresh (log_bytes 0 ps ++ tail))
          ≡ record { payloads = ps; last = log_end; reader = r' })
        × (r'.last_good_end ≡ length (log_bytes 0 ps))
  read_all-log ps tail short =
      let (r₁, all, behind, good) =
        read_all-log_bytes ps 0 1 (fresh (log_bytes 0 ps ++ tail)) tail
          (fresh-Stands (log_bytes 0 ps ++ tail)) refl in
      let (r₂, end, same) = read_record_short r₁ (0 + length (log_bytes 0 ps)) tail behind short in
      let last : read_all 1 fill r₁ ≡ record { payloads = []; last = log_end; reader = r₂ } =
        unfold read_all run_continue in rw end refl in
      (r₂, all ∙ rw (last, append-nil ps) refl, same ∙ good ∙ omega arith)
