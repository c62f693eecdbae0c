-- ===== src/Vlog/History.antt =====
-- A value stays readable through every later append, those that fail midway included.
use bedrockkv.Prelude.{
  ℕ, ◌≤◌, ◌≡◌, refl, ap, sym, ◌∙◌, subst, Bool, List, [], ◌++◌, append-nil, append_assoc, arith,
  Bytes, IsU32, length, length-append,
}
use bedrockkv.Status.{done}
use bedrockkv.Io.{
  WriteAnswer, WriteResult, all_written, write_failed, still_waiting, write_all, Pread, IsExact,
}
use bedrockkv.Io.WriteAll.{write_all-done}
use bedrockkv.Vlog.{Vlog, appended, append_end, append, entry, read_value}
use bedrockkv.Vlog.Reading.{
  length-entry, read_entry, IsInStep, append-IsInStep, file-append, append-IsBehind,
}

-- `w` comes from `v` by appends, whatever `::write` and `::lseek` answered.
pub data Appends (v : Vlog) : Vlog → Type 0 where
  none_yet : Appends v v
  one_more :
      {w u : Vlog} (answers : List WriteAnswer) (seek_ok : Bool) (key value : Bytes)
      → Appends v w
      → u ≡ (append w answers seek_ok key value).0
      → Appends v u

Appends-IsBehind :
    {v w : Vlog}
    → v.file_end ≤ length v.file
    → Appends v w
    → (w.file_end ≤ length w.file) × (v.file_end ≤ w.file_end)
Appends-IsBehind h none_yet = (h, omega arith)
Appends-IsBehind {v} h (one_more {w = w} answers seek_ok key value before e) =
    let (behind, kept) = Appends-IsBehind h before in
    let (bound, later) = append-IsBehind w answers seek_ok key value behind in
    subst (λ (u : Vlog). (u.file_end ≤ length u.file) × (v.file_end ≤ u.file_end)) (sym e)
      (bound, omega (arith, kept, later))

Appends-file : {v w : Vlog} → Appends v w → (front : Bytes) × (w.file ≡ v.file ++ front)
Appends-file {v} none_yet = ([], sym (append-nil v.file))
Appends-file {v} (one_more {w = w} answers seek_ok key value before e) =
    let (a, ea) = Appends-file before in
    let (b, eb) = file-append w answers seek_ok key value in
    (
      a ++ b,
      ap (λ (u : Vlog). u.file) e ∙ eb ∙ ap (λ (l : Bytes). l ++ b) ea ∙ append_assoc v.file a b,
    )

-- What a successful append returns and leaves.
append_end-appended :
    (v : Vlog) (seek_ok : Bool) (w : Bytes × WriteResult) (size off n : ℕ)
    → (append_end v seek_ok w size).1 ≡ appended off n
    → (w.1 ≡ all_written) × (off ≡ v.file_end) × ((append_end v seek_ok w size).0.file ≡ w.0)
unfolding append_end
append_end-appended v seek_ok (file, all_written) size off n h = (refl, ground arith, refl)
append_end-appended v seek_ok (file, write_failed) size off n h = cc
append_end-appended v seek_ok (file, still_waiting) size off n h = cc

append-appended :
    (v : Vlog) (answers : List WriteAnswer) (seek_ok : Bool) (key value : Bytes) (off n : ℕ)
    → (append v answers seek_ok key value).1 ≡ appended off n
    → ((append v answers seek_ok key value).0.file ≡ v.file ++ entry key value) × (off ≡ v.file_end)
unfolding append
append-appended v answers seek_ok key value off n h =
    let (all, place, held) =
      append_end-appended v seek_ok (write_all answers (entry key value) v.file)
        (length (entry key value)) off n h in
    (held ∙ write_all-done answers (entry key value) v.file all, place)

-- ReadValue at the offset that a successful Append returned gives the value back after any
-- further appends, failed ones among them and whatever lseek answers behind these, if the append
-- position was the size of the file before, the key and the value are shorter than 4 GiB, and
-- pread reads exactly.
pub read_value-append :
    (pread : Pread) (v w : Vlog) (answers : List WriteAnswer) (seek_ok : Bool) (key value : Bytes)
    (off n : ℕ)
    → IsExact pread
    → IsInStep v
    → IsU32 (length key)
    → IsU32 (length value)
    → (append v answers seek_ok key value).1 ≡ appended off n
    → Appends (append v answers seek_ok key value).0 w
    → read_value pread w off (length value) ≡ done value
read_value-append pread v w answers seek_ok key value off n exact h hk hv ok later =
    let (first, at_end) = append-appended v answers seek_ok key value off n ok in
    let (rest, held) = Appends-file later in
    let holds : w.file ≡ v.file ++ (entry key value ++ rest) =
      held ∙ ap (λ (l : Bytes). l ++ rest) first ∙ append_assoc v.file (entry key value) rest in
    let step =
      (append-IsInStep v answers seek_ok key value h (λ e. cc (ok, e))
        (λ e. absurd (cc (ok, e)))).0 in
    let (behind, kept) = Appends-IsBehind (omega (arith, step)) later in
    let place : off ≡ length v.file = omega (arith, at_end, h) in
    rw place (
      read_entry pread exact w v.file key value rest holds
        (omega (
          arith,
          step,
          kept,
          ap length first,
          length-append v.file (entry key value),
          length-entry key value,
        ))
        hk hv)
