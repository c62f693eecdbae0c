-- ===== src/Tests/Values.antt =====
-- The value log at concrete inputs.
use bedrockkv.Prelude.{
  ◌≡◌, ◌≢◌, ◌≤◌, refl, true, false, List, [], ◌∷◌, ◌++◌, arith, Bytes, length, take, drop, some,
}
use bedrockkv.Prelude.Text.{codes}
use bedrockkv.Status.{ok, done}
use bedrockkv.Encoding.{fixed32}
use bedrockkv.Io.{WriteAnswer, wrote, refused, bytes_read, Pread, IsExact, write_all}
use bedrockkv.Vlog.{
  Vlog, ValuePointer, encode_value_pointer, decode_value_pointer, open_vlog, entry, append,
  appended, append_waiting, read_value, scan_entries, returned, out_of_fuel,
}
use bedrockkv.Vlog.Pointer.{decode_value_pointer-encode_value_pointer}
use bedrockkv.Vlog.Reading.{IsInStep, append-IsInStep}
use bedrockkv.Vlog.History.{none_yet, one_more, read_value-append}
use bedrockkv.Vlog.Scanning.{scan_entries_returns}
use bedrockkv.Vlog.Recovery.{IsTorn, entries_bytes, calls_from, scan_entries_complete}

abbrev pread : Pread
pread file n offset = bytes_read (take n (drop offset file))

exact : IsExact pread
exact file n offset = refl

abbrev pointer : ValuePointer
pointer = record { vlog_number = 3; offset = 70; value_size = 9 }

decode_value_pointer-encode_value_pointer_example :
    decode_value_pointer (encode_value_pointer pointer) ≡ some pointer
decode_value_pointer-encode_value_pointer_example =
    decode_value_pointer-encode_value_pointer pointer (omega arith) (omega arith) (omega arith)

abbrev empty : Vlog
empty = open_vlog 1 []

abbrev answers : List WriteAnswer
answers = wrote 5 ∷ wrote 9 ∷ []

-- A failed append, after five bytes.
abbrev failing : List WriteAnswer
failing = wrote 5 ∷ refused ∷ []

append-IsInStep_example :
    IsInStep (append (open_vlog 1 []) failing true (codes "k") (codes "v")).0
    × ((front : Bytes) × ((append (open_vlog 1 []) failing true (codes "k") (codes "v")).0.file
          ≡ (open_vlog 1 []).file ++ front))
append-IsInStep_example =
    append-IsInStep (open_vlog 1 []) failing true (codes "k") (codes "v") in_step finished
      (λ h. refl)
  where
    in_step : IsInStep (open_vlog 1 [])
    in_step = unfold open_vlog in refl

    finished : (append (open_vlog 1 []) failing true (codes "k") (codes "v")).1 ≢ append_waiting
    finished = unfold append write_all take drop open_vlog fixed32 in ground arith

read_value-append_example :
    read_value pread
      (append
        (append (open_vlog 1 []) answers true (codes "k") (codes "v")).0
        failing
        false
        (codes "l")
        (codes "w")).0
      0
      1
    ≡ done (codes "v")
read_value-append_example =
    read_value-append pread (open_vlog 1 [])
      (append (append (open_vlog 1 []) answers true (codes "k") (codes "v")).0 failing false
        (codes "l") (codes "w")).0
      answers true (codes "k") (codes "v") 0 14 exact in_step (omega arith) (omega arith) wrote_all
      (one_more failing false (codes "l") (codes "w") none_yet refl)
  where
    in_step : IsInStep (open_vlog 1 [])
    in_step = unfold open_vlog in refl

    wrote_all : (append (open_vlog 1 []) answers true (codes "k") (codes "v")).1 ≡ appended 0 14
    wrote_all = unfold append write_all take drop open_vlog fixed32 in refl

abbrev entries : List (Bytes × Bytes)
entries = (codes "k", codes "v") ∷ (codes "l", codes "long") ∷ []

-- Five bytes of an entry that a crash cut off.
abbrev torn_tail : Bytes
torn_tail = take 5 (entry (codes "m") (codes "x"))

torn_tail-IsTorn : IsTorn torn_tail
torn_tail-IsTorn = record {
  key = codes "m";
  value = codes "x";
  next = 0;
  missing = 0 ∷ 0 ∷ 1 ∷ 0 ∷ 0 ∷ 0 ∷ 109 ∷ 120 ∷ [];
  fits = omega arith;
  cut = unfold entry fixed32 take in refl;
}

scan_entries_complete_example :
    scan_entries pread (open_vlog 1 (entries_bytes entries ++ torn_tail)) 64
    ≡ (calls_from 0 entries, returned ok)
scan_entries_complete_example =
    scan_entries_complete pread 1 entries torn_tail 64 exact (omega arith) torn_tail-IsTorn small
  where
    small : length (entries_bytes entries ++ torn_tail) ≤ 64
    small = unfold entry fixed32 take in omega arith

scan_entries_returns_example :
    (scan_entries pread (open_vlog 1 (codes "garbage bytes")) 100).1 ≢ out_of_fuel
scan_entries_returns_example = scan_entries_returns pread (open_vlog 1 (codes "garbage bytes")) 100
