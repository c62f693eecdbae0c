-- ===== src/Vlog/Reading.antt =====
-- `VLog::ReadValue` finds what `VLog::Append` wrote.
use bedrockkv.Prelude.{
  ℕ, ◌+◌, ◌%◌, ◌^◌, ◌≤◌, ◌≡◌, ◌≢◌, refl, ap, sym, ◌∙◌, Bool, true, false, List, [], ◌++◌,
  append-nil, arith, Bytes, IsU32, length, take, drop, length-append, take-append, drop-append,
  drop-drop, take_all,
}
use bedrockkv.Status.{done}
use bedrockkv.Encoding.{fixed32, get_fixed32}
use bedrockkv.Encoding.RoundTrip.{get_fixed32-fixed32, length-fixed32}
use bedrockkv.Crc32.{crc32}
use bedrockkv.Crc32.Streaming.{crc32-append, crc32-IsU32}
use bedrockkv.Io.{
  WriteAnswer, WriteResult, all_written, write_failed, still_waiting, write_all, bytes_read, Pread,
  IsExact,
}
use bedrockkv.Io.WriteAll.{write_all-done, write_all-prefix}
use bedrockkv.Vlog.{
  Vlog, Appended, append_failed, append_waiting, append_end, append, entry_body, entry, read_value,
}

-- The first twelve bytes of an entry.
abbrev pub header : Bytes → Bytes → Bytes
header key value =
    fixed32 (crc32 (entry_body key value) 0)
    ++ (fixed32 (length key % 2 ^ 32) ++ fixed32 (length value % 2 ^ 32))

module _ (key value : Bytes) where
  pub take-header : (post : Bytes) → take 12 (entry key value ++ post) ≡ header key value
  unfolding take entry entry_body fixed32
  take-header post = refl

  pub drop-header : (post : Bytes) → drop 12 (entry key value ++ post) ≡ (key ++ value) ++ post
  unfolding drop entry entry_body fixed32
  drop-header post = refl

  pub length-entry : length (entry key value) ≡ 12 + (length key + length value)
  unfolding entry entry_body fixed32
  length-entry = omega (arith, length-append key value)

  pub length-header : length (header key value) ≡ 12
  unfolding fixed32
  length-header = refl

  pub header-klen : IsU32 (length key) → get_fixed32 (drop 4 (header key value)) ≡ length key
  header-klen h =
      let e : length key % 2 ^ 32 ≡ length key = omega arith in
      ap get_fixed32 (
        drop-append 4 (fixed32 (crc32 (entry_body key value) 0))
          (fixed32 (length key % 2 ^ 32) ++ fixed32 (length value % 2 ^ 32))
          (sym (length-fixed32 (crc32 (entry_body key value) 0))))
      ∙ get_fixed32-fixed32 (length key % 2 ^ 32) (fixed32 (length value % 2 ^ 32)) (omega arith)
      ∙ e

  pub header-vsize : IsU32 (length value) → get_fixed32 (drop 8 (header key value)) ≡ length value
  unfolding drop fixed32
  header-vsize h =
      let e : length value % 2 ^ 32 ≡ length value = omega arith in
      ap get_fixed32 (sym (append-nil (fixed32 (length value % 2 ^ 32))))
      ∙ get_fixed32-fixed32 (length value % 2 ^ 32) [] (omega arith)
      ∙ e

  pub header-crc :
      crc32 (key ++ value) (crc32 (take 8 (drop 4 (header key value))) 0)
      ≡ get_fixed32 (header key value)
  header-crc =
      ap (λ (b : Bytes). crc32 (key ++ value) (crc32 b 0)) sizes
      ∙ sym (
          crc32-append (fixed32 (length key % 2 ^ 32) ++ fixed32 (length value % 2 ^ 32))
            (key ++ value) 0 (omega arith))
      ∙ ap (λ (b : Bytes). crc32 b 0) body
      ∙ sym (
          get_fixed32-fixed32 (crc32 (entry_body key value) 0)
            (fixed32 (length key % 2 ^ 32) ++ fixed32 (length value % 2 ^ 32))
            (crc32-IsU32 (entry_body key value) 0 (omega arith)))
    where
      sizes :
          take 8 (drop 4 (header key value))
          ≡ fixed32 (length key % 2 ^ 32) ++ fixed32 (length value % 2 ^ 32)
      sizes = unfold take drop fixed32 in refl

      body :
          (fixed32 (length key % 2 ^ 32) ++ fixed32 (length value % 2 ^ 32)) ++ (key ++ value)
          ≡ entry_body key value
      body = unfold entry_body fixed32 in refl

-- An entry anywhere in the file is read back, whatever stands before and behind it.
module _ (pread : Pread) (exact : IsExact pread) (v : Vlog) (pre key value post : Bytes)
    (holds : v.file ≡ pre ++ (entry key value ++ post))
    (reaches : length pre + (12 + (length key + length value)) ≤ v.file_end)
    (hk : IsU32 (length key)) (hv : IsU32 (length value)) where
  read_header : pread v.file 12 (length pre) ≡ bytes_read (header key value)
  read_header =
      exact v.file 12 (length pre)
      ∙ ap (λ (f : Bytes). bytes_read (take 12 (drop (length pre) f))) holds
      ∙ ap (λ (f : Bytes). bytes_read (take 12 f))
          (drop-append (length pre) pre (entry key value ++ post) refl)
      ∙ ap bytes_read (take-header key value post)

  read_payload :
      pread v.file (length key + length value) (length pre + 12) ≡ bytes_read (key ++ value)
  read_payload =
      exact v.file (length key + length value) (length pre + 12)
      ∙ ap (λ (f : Bytes). bytes_read (take (length key + length value) f))
          (sym (drop-drop 12 (length pre) v.file)
            ∙ ap (λ (f : Bytes). drop 12 (drop (length pre) f)) holds
            ∙ ap (drop 12) (drop-append (length pre) pre (entry key value ++ post) refl)
            ∙ drop-header key value post)
      ∙ ap bytes_read (
          take-append (length key + length value) (key ++ value) post
            (sym (length-append key value)))

  value_part : take (length value) (drop (length key) (key ++ value)) ≡ value
  value_part =
      ap (take (length value)) (drop-append (length key) key value refl)
      ∙ take_all (length value) value (omega arith)

  pub read_entry : read_value pread v (length pre) (length value) ≡ done value
  unfolding read_value
  read_entry =
      rw
        (
          read_header,
          header-klen key value hk,
          header-vsize key value hv,
          read_payload,
          header-crc key value,
          value_part,
        )
        (ground (arith, length-header key value, length-append key value))

-- `end_` is the file's size.
abbrev pub IsInStep : Vlog → Type 0
IsInStep v = v.file_end ≡ length v.file

abbrev pub Finished : Appended → Type 0
Finished r = r ≢ append_waiting

written_size :
    (answers : List WriteAnswer) (bytes file : Bytes)
    → (write_all answers bytes file).1 ≡ all_written
    → length (write_all answers bytes file).0 ≡ length file + length bytes
written_size answers bytes file h =
    ap length (write_all-done answers bytes file h) ∙ length-append file bytes

append_end-IsInStep :
    (v : Vlog) (seek_ok : Bool) (w : Bytes × WriteResult) (size : ℕ)
    → IsInStep v
    → (w.1 ≡ all_written → length w.0 ≡ length v.file + size)
    → Finished (append_end v seek_ok w size).1
    → ((append_end v seek_ok w size).1 ≡ append_failed → seek_ok ≡ true)
    → IsInStep (append_end v seek_ok w size).0
unfolding append_end
append_end-IsInStep v seek_ok (file, all_written) size h grown f seek = omega (arith, grown refl)
append_end-IsInStep v seek_ok (file, write_failed) size h grown f seek = rw (seek refl) refl
append_end-IsInStep v seek_ok (file, still_waiting) size h grown f seek = absurd (f refl)

file-append_end :
    (v : Vlog) (seek_ok : Bool) (w : Bytes × WriteResult) (size : ℕ)
    → (append_end v seek_ok w size).0.file ≡ w.0
unfolding append_end
file-append_end v seek_ok (file, all_written) size = refl
file-append_end v seek_ok (file, write_failed) size = refl
file-append_end v seek_ok (file, still_waiting) size = refl

-- The file after an append, however it ended, extends the file before.
pub file-append :
    (v : Vlog) (answers : List WriteAnswer) (seek_ok : Bool) (key value : Bytes)
    → (front : Bytes) × ((append v answers seek_ok key value).0.file ≡ v.file ++ front)
unfolding append
file-append v answers seek_ok key value =
    let (front, back, split, grown) = write_all-prefix answers (entry key value) v.file in
    (
      front,
      file-append_end v seek_ok (write_all answers (entry key value) v.file)
            (length (entry key value))
          ∙ grown,
    )

-- After an Append that returned, the file has the bytes that it had and others behind them, and
-- the append position is its size, if it was so before, and if lseek answers when the write
-- failed.
pub append-IsInStep :
    (v : Vlog) (answers : List WriteAnswer) (seek_ok : Bool) (key value : Bytes)
    → IsInStep v
    → Finished (append v answers seek_ok key value).1
    → ((append v answers seek_ok key value).1 ≡ append_failed → seek_ok ≡ true)
    → IsInStep (append v answers seek_ok key value).0
      × ((front : Bytes) × ((append v answers seek_ok key value).0.file ≡ v.file ++ front))
append-IsInStep v answers seek_ok key value h f seek = (
  (unfold append in
      append_end-IsInStep v seek_ok (write_all answers (entry key value) v.file)
        (length (entry key value)) h (written_size answers (entry key value) v.file) f seek),
  file-append v answers seek_ok key value,
)

append_end-IsBehind :
    (v : Vlog) (seek_ok : Bool) (w : Bytes × WriteResult) (size : ℕ)
    → v.file_end ≤ length v.file
    → length v.file ≤ length w.0
    → (w.1 ≡ all_written → length w.0 ≡ length v.file + size)
    → ((append_end v seek_ok w size).0.file_end ≤ length w.0)
      × (v.file_end ≤ (append_end v seek_ok w size).0.file_end)
unfolding append_end
append_end-IsBehind v seek_ok (file, all_written) size h more grown =
    (omega (arith, grown refl), omega arith)
append_end-IsBehind v true (file, write_failed) size h more grown =
    (omega arith, omega (arith, more))
append_end-IsBehind v false (file, write_failed) size h more grown =
    (omega (arith, more), omega arith)
append_end-IsBehind v seek_ok (file, still_waiting) size h more grown =
    (omega (arith, more), omega arith)

-- Whatever `::lseek` answers, the append position does not pass the end of the file or move back.
pub append-IsBehind :
    (v : Vlog) (answers : List WriteAnswer) (seek_ok : Bool) (key value : Bytes)
    → v.file_end ≤ length v.file
    → ((append v answers seek_ok key value).0.file_end
        ≤ length (append v answers seek_ok key value).0.file)
      × (v.file_end ≤ (append v answers seek_ok key value).0.file_end)
append-IsBehind v answers seek_ok key value h =
    let w = write_all answers (entry key value) v.file in
    let (front, back, parts, grown) = write_all-prefix answers (entry key value) v.file in
    let more : length v.file ≤ length w.0 =
      omega (arith, ap length grown, length-append v.file front) in
    let both =
      append_end-IsBehind v seek_ok w (length (entry key value)) h more
        (written_size answers (entry key value) v.file) in
    unfold append in
    (
      omega (arith, both.0, ap length (file-append_end v seek_ok w (length (entry key value)))),
      both.1,
    )
