-- ===== src/Wal/Truncation.antt =====
-- The offset that `ReadRecord` gives out with a corruption.
use bedrockkv.Prelude.{
  ℕ, zero, suc, ◌+◌, ◌*◌, ◌≡◌, refl, ◌∙◌, subst, Bool, true, false, [], ◌++◌, arith, Bytes, List,
  length, take, take-append, if◌then◌else◌,
}
use bedrockkv.Wal.Reader.{
  Reader, Fill, IsFaithful, Physical, fragment, end_of_file, corrupt, no_fuel, PhysicalStep, again,
  give, refill, filled, fill_failed, at_header, physical_step, physical_continue, physical_loop,
  ReadResult, payload, log_end, corruption_at, out_of_fuel, RecordStep, inside, finish, on_fragment,
  record_loop, record_step, record_continue, read_record, read_physical_record, fresh,
}
use bedrockkv.Wal.Log.{log_bytes, add_payload, run_continue, read_all, read_all-log_bytes}
use bedrockkv.Wal.RoundTrip.{fresh-Stands}

Kept : ℕ → PhysicalStep → Type 0
Kept n (again r) = r.last_good_end ≡ n
Kept n (give p r) = r.last_good_end ≡ n

-- A corruption is reported at `n`.
pub Cuts : ℕ → ReadResult → Type 0
Cuts n (payload p) = n ≡ n
Cuts n log_end = n ≡ n
Cuts n (corruption_at k) = k ≡ n
Cuts n out_of_fuel = n ≡ n

CutsStep : ℕ → RecordStep → Type 0
CutsStep n (inside r) = r.last_good_end ≡ n
CutsStep n (finish res r) = Cuts n res

Kept-if :
    (n : ℕ) (c : Bool) (a b : PhysicalStep) → Kept n a → Kept n b → Kept n (if c then a else b)
Kept-if n true a b h k = h
Kept-if n false a b h k = k

Kept-give : (n : ℕ) (p : Physical) (r : Reader) → r.last_good_end ≡ n → Kept n (give p r)
unfolding Kept
Kept-give n p r h = h

Kept-again : (n : ℕ) (r : Reader) → r.last_good_end ≡ n → Kept n (again r)
unfolding Kept
Kept-again n r h = h

refill-Kept : (r : Reader) (f : Fill) → Kept r.last_good_end (refill r f)
unfolding refill
refill-Kept r fill_failed = Kept-give _ _ _ refl
refill-Kept r (filled block at_end rest) =
    Kept-if _ _ _ _ (Kept-give _ _ _ refl) (Kept-again _ _ refl)

at_header-Kept : (r : Reader) → Kept r.last_good_end (at_header r)
unfolding at_header
at_header-Kept r = search (Kept-if, Kept-give, Kept-again)

step-Kept : (fill : Bytes → Fill) (r : Reader) → Kept r.last_good_end (physical_step fill r)
unfolding physical_step Kept
step-Kept fill r = search (Kept-if, at_header-Kept, refill-Kept)

continue-Kept :
    (next : Reader → Physical × Reader)
    → ((r : Reader) → (next r).1.last_good_end ≡ r.last_good_end)
    → (n : ℕ) (s : PhysicalStep) → Kept n s
    → (physical_continue next s).1.last_good_end ≡ n
unfolding physical_continue Kept
continue-Kept next same n (again r) h = same r ∙ h
continue-Kept next same n (give p r) h = h

loop-Kept :
    (fuel : ℕ) (fill : Bytes → Fill) (r : Reader)
    → (physical_loop fuel fill r).1.last_good_end ≡ r.last_good_end
unfolding physical_loop
loop-Kept zero fill r = refl
loop-Kept (suc fuel) fill r =
    continue-Kept (physical_loop fuel fill) (λ r'. loop-Kept fuel fill r') r.last_good_end
      (physical_step fill r) (step-Kept fill r)

Cuts-if :
    (n : ℕ) (c : Bool) (a b : RecordStep)
    → CutsStep n a
    → CutsStep n b
    → CutsStep n (if c then a else b)
Cuts-if n true a b h k = h
Cuts-if n false a b h k = k

Cuts-fail : (r r' : Reader) → CutsStep r.last_good_end (finish (corruption_at r.last_good_end) r')
unfolding CutsStep Cuts
Cuts-fail r r' = refl

Cuts-payload : (n : ℕ) (p : Bytes) (r : Reader) → CutsStep n (finish (payload p) r)
unfolding CutsStep Cuts
Cuts-payload n p r = refl

Cuts-inside : (n : ℕ) (r : Reader) → r.last_good_end ≡ n → CutsStep n (inside r)
unfolding CutsStep
Cuts-inside n r h = h

on_fragment-Cuts :
    (inf : Bool) (frag : Bytes) (t end : ℕ) (r : Reader)
    → CutsStep r.last_good_end (on_fragment inf frag t end r)
unfolding on_fragment
on_fragment-Cuts inf frag t end r =
    search (Cuts-if, Cuts-fail, Cuts-payload, Cuts-inside, refl) depth 9

step-Cuts :
    (inf : Bool) (n : ℕ) (got : Physical × Reader)
    → got.1.last_good_end ≡ n
    → CutsStep n (record_step inf got)
unfolding record_step CutsStep Cuts
step-Cuts inf n (fragment frag t end, r) h =
    subst (λ (m : ℕ). CutsStep m (on_fragment inf frag t end r)) h
      (on_fragment-Cuts inf frag t end r)
step-Cuts true n (end_of_file, r) h = h
step-Cuts false n (end_of_file, r) h = refl
step-Cuts inf n (corrupt, r) h = h
step-Cuts inf n (no_fuel, r) h = refl

continue-Cuts :
    (next : Reader → ReadResult × Reader)
    → ((r : Reader) → Cuts r.last_good_end (next r).0)
    → (n : ℕ) (s : RecordStep) → CutsStep n s
    → Cuts n (record_continue next s).0
unfolding record_continue CutsStep
continue-Cuts next cuts n (inside r) h = subst (λ (m : ℕ). Cuts m (next r).0) h (cuts r)
continue-Cuts next cuts n (finish res r) h = h

loop-Cuts :
    (fuel : ℕ) (fill : Bytes → Fill) (inf : Bool) (r : Reader)
    → Cuts r.last_good_end (record_loop fuel fill inf r).0
unfolding record_loop
loop-Cuts zero fill inf r = unfold Cuts in refl
loop-Cuts (suc fuel) fill inf r =
    continue-Cuts (record_loop fuel fill true) (λ r'. loop-Cuts fuel fill true r') r.last_good_end _
      (step-Cuts inf r.last_good_end (read_physical_record fill r)
        (unfold read_physical_record in loop-Kept (2 * length r.file + 4) fill r))

-- A corruption is reported at the end of the last whole record.
pub read_record-corruption :
    (fill : Bytes → Fill) (r : Reader) → Cuts r.last_good_end (read_record fill r).0
unfolding read_record
read_record-corruption fill r =
    loop-Cuts (length r.file + length r.buffer + 2) fill false (record r { scratch = [] })

continue-last :
    (fill : Bytes → Fill) (n : ℕ) (got : ReadResult × Reader)
    → Cuts n got.0
    → Cuts n (run_continue (read_all 0 fill) got).last
unfolding run_continue read_all add_payload
continue-last fill n (payload p, r) h = unfold Cuts in refl
continue-last fill n (log_end, r) h = h
continue-last fill n (corruption_at k, r) h = h
continue-last fill n (out_of_fuel, r) h = h

next-Cuts : (fill : Bytes → Fill) (r : Reader) → Cuts r.last_good_end (read_all 1 fill r).last
unfolding read_all
next-Cuts fill r =
    continue-last fill r.last_good_end (read_record fill r) (read_record-corruption fill r)

-- Whatever bytes stand behind the whole records, they are all returned first, and a corruption
-- that the next ReadRecord reports carries the end of the last record as its offset.
pub log_cut :
    (fill : Bytes → Fill)
    → IsFaithful fill
    → (ps : List Bytes) (tail : Bytes)
    → (take (length ps) (read_all (length ps + 1) fill (fresh (log_bytes 0 ps ++ tail))).payloads
        ≡ ps)
      × Cuts
          (length (log_bytes 0 ps))
          (read_all (length ps + 1) fill (fresh (log_bytes 0 ps ++ tail))).last
log_cut fill faithful ps tail =
    let (r, all, behind, good) =
      read_all-log_bytes fill faithful ps 0 1 (fresh (log_bytes 0 ps ++ tail)) tail
        (fresh-Stands (log_bytes 0 ps ++ tail)) refl in
    let here : r.last_good_end ≡ length (log_bytes 0 ps) = good ∙ omega arith in
    (
      rw all (take-append (length ps) ps (read_all 1 fill r).payloads refl),
      rw all (subst (λ (n : ℕ). Cuts n (read_all 1 fill r).last) here (next-Cuts fill r)),
    )
