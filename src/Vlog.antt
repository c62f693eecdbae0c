-- ===== src/Vlog.antt =====
-- The value log, include/bedrockkv/vlog.h and src/vlog.cpp: pointers, entries, appending, reading
-- and scanning. The file is its bytes; `file_end` is the atomic `end_`.
pub mod Pointer
pub mod Reading
pub mod History
pub mod Scanning
pub mod Recovery
use bedrockkv.Prelude.{
  ℕ, zero, suc, ◌+◌, ◌-◌, ◌%◌, ◌^◌, Bool, true, false, not, ◌&&◌, ◌||◌, List, [], ◌∷◌, ◌++◌, Option,
  none, some, Bytes, length, take, drop, byte_at, replicate, ltb, leb, min, ◌==◌, if◌then◌else◌,
}
use bedrockkv.Prelude.Text.{codes, decimal}
use bedrockkv.Status.{Status, ok, not_found, corruption, io_error, Result, done, failed}
use bedrockkv.Encoding.{fixed32, fixed64, get_fixed32, get_fixed64}
use bedrockkv.Crc32.{crc32}
use bedrockkv.Io.{
  WriteAnswer, WriteResult, all_written, write_failed, still_waiting, write_all, ReadAnswer,
  bytes_read, read_error, Pread,
}

pub record ValuePointer : Type 0 where
  pub vlog_number : ℕ
  pub offset : ℕ
  pub value_size : ℕ

abbrev pub pointer_size : ℕ
pointer_size = 21

abbrev pub pointer_tag : ℕ
pointer_tag = 0xff

unfoldable pub encode_value_pointer : ValuePointer → Bytes
encode_value_pointer p =
    pointer_tag ∷ (fixed64 p.vlog_number ++ (fixed64 p.offset ++ fixed32 p.value_size))

unfoldable pub decode_value_pointer : Bytes → Option ValuePointer
decode_value_pointer stored =
    if not (length stored == pointer_size) || not (byte_at stored 0 == pointer_tag)
    then none
    else let d = drop 1 stored in
      some (record {
        vlog_number = get_fixed64 d;
        offset = get_fixed64 (drop 8 d);
        value_size = get_fixed32 (drop 16 d);
      })

-- `%06llu`
abbrev pub pad6 : Bytes → Bytes
pad6 digits = replicate (6 - length digits) b'0' ++ digits

unfoldable pub file_name : ℕ → Bytes
file_name number = pad6 (decimal number) ++ codes ".vlog"

pub record Vlog : Type 0 where
  pub number : ℕ
  pub file : Bytes
  pub file_end : ℕ

-- `VLog::Open`: the append position is the file's real end.
unfoldable pub open_vlog : ℕ → Bytes → Vlog
open_vlog number file = record { number = number; file = file; file_end = length file }

abbrev pub header_size : ℕ
header_size = 12

-- `klen`, `vsize`, key and value: what the checksum of an entry covers.
unfoldable pub entry_body : Bytes → Bytes → Bytes
entry_body key value =
    fixed32 (length key % 2 ^ 32) ++ (fixed32 (length value % 2 ^ 32) ++ (key ++ value))

-- `buf` of `VLog::Append`, with the checksum patched in.
unfoldable pub entry : Bytes → Bytes → Bytes
unfolding entry_body
entry key value = fixed32 (crc32 (entry_body key value) 0) ++ entry_body key value

-- How `Append` returns: the offset and the bytes written, or the error of the write.
pub data Appended : Type 0 where
  appended : ℕ → ℕ → Appended
  append_failed : Appended
  append_waiting : Appended

-- `VLog::Append`. After a failed write `end_` is taken from `::lseek`, unless that fails too.
unfoldable pub append_end : Vlog → Bool → Bytes × WriteResult → ℕ → Vlog × Appended
append_end v seek_ok (file, all_written) size =
    (record v { file = file; file_end = v.file_end + size }, appended v.file_end size)
append_end v seek_ok (file, write_failed) size = (
  record v { file = file; file_end = if seek_ok then length file else v.file_end },
  append_failed,
)
append_end v seek_ok (file, still_waiting) size = (record v { file = file }, append_waiting)

unfoldable pub append : Vlog → List WriteAnswer → Bool → Bytes → Bytes → Vlog × Appended
unfolding append_end entry
append v answers seek_ok key value =
    append_end v seek_ok (write_all answers (entry key value) v.file) (length (entry key value))

torn : Vlog → Status
torn v = not_found (codes "torn vlog tail in " ++ file_name v.number)

-- The payload of the entry, once the header is read and its sizes are in range.
unfoldable pub check_payload : Vlog → Bytes → ℕ → ℕ → ReadAnswer → Result Bytes
unfolding torn
check_payload v header klen vsize (read_error e) = failed (torn v)
check_payload v header klen vsize (bytes_read payload) =
    if ltb (length payload) (klen + vsize)
    then failed (torn v)
    else if not (crc32 payload (crc32 (take 8 (drop 4 header)) 0) == get_fixed32 header)
    then failed (corruption (codes "vlog entry CRC mismatch in " ++ file_name v.number))
    else done (take vsize (drop klen payload))

unfoldable pub check_header : Pread → Vlog → ℕ → ℕ → ReadAnswer → Result Bytes
unfolding torn check_payload
check_header pread v offset expected_size (read_error e) =
    failed (io_error (codes "vlog pread header failed: " ++ e))
check_header pread v offset expected_size (bytes_read header) =
    let klen = get_fixed32 (drop 4 header) in
    let vsize = get_fixed32 (drop 8 header) in
    if ltb (length header) header_size
    then failed (torn v)
    else if ltb v.file_end klen
        || ltb v.file_end vsize
        || ltb (v.file_end - offset - header_size) (klen + vsize)
    then failed (torn v)
    else if not (vsize == expected_size)
    then failed (
        corruption (
          codes "vlog entry size "
          ++ (decimal vsize ++ (codes " != pointer size " ++ decimal expected_size))))
    else check_payload v header klen vsize (pread v.file (klen + vsize) (offset + header_size))

-- `VLog::ReadValue`
unfoldable pub read_value : Pread → Vlog → ℕ → ℕ → Result Bytes
unfolding check_header
read_value pread v offset expected_size =
    if ltb v.file_end offset || ltb (v.file_end - offset) header_size
    then failed (not_found (codes "value pointer past end of vlog " ++ file_name v.number))
    else check_header pread v offset expected_size (pread v.file header_size offset)

-- One call of `fn` by `ScanEntries`.
pub record Scanned : Type 0 where
  pub key : Bytes
  pub value : Bytes
  pub offset : ℕ

-- How a scan ends: `out_of_fuel` is no return of the program.
pub data ScanEnd : Type 0 where
  returned : Status → ScanEnd
  out_of_fuel : ScanEnd

-- One round of the loop of `ScanEntries`: it leaves the loop, or calls `fn` and moves on by `total`.
pub data ScanStep : Type 0 where
  leave : ScanEnd → ScanStep
  found : Scanned → ℕ → ScanStep

-- The round behind the second `pread`. `std::string payload(klen + vsize)` has a 32-bit sum;
-- where it wraps the source's views reach past the payload, and here they end with it.
unfoldable pub scan_payload : Bytes → ℕ → ℕ → ℕ → ReadAnswer → ScanStep
scan_payload header klen vsize off (read_error e) = leave (returned ok)
scan_payload header klen vsize off (bytes_read payload) =
    if ltb (length payload) ((klen + vsize) % 2 ^ 32)
    then leave (returned ok)
    else if not (crc32 payload (crc32 (take 8 (drop 4 header)) 0) == get_fixed32 header)
    then leave (returned ok)
    else found
        (record { key = take klen payload; value = take vsize (drop klen payload); offset = off })
        (header_size + klen + vsize)

unfoldable pub scan_header : Pread → Bytes → ℕ → ℕ → ReadAnswer → ScanStep
unfolding scan_payload
scan_header pread file file_end off (read_error e) =
    leave (returned (io_error (codes "vlog scan pread failed: " ++ e)))
scan_header pread file file_end off (bytes_read header) =
    let klen = get_fixed32 (drop 4 header) in
    let vsize = get_fixed32 (drop 8 header) in
    if ltb (length header) header_size
    then leave (returned ok)
    else if ltb file_end (off + (header_size + klen + vsize))
    then leave (returned ok)
    else scan_payload header klen vsize off
        (pread file ((klen + vsize) % 2 ^ 32) (off + header_size))

unfoldable pub scan_step : Pread → Bytes → ℕ → ℕ → ScanStep
unfolding scan_header
scan_step pread file file_end off =
    if leb (off + header_size) file_end
    then scan_header pread file file_end off (pread file header_size off)
    else leave (returned ok)

-- Go on with the round at `off + total`, or leave.
unfoldable pub scan_continue : (ℕ → List Scanned × ScanEnd) → ScanStep → List Scanned × ScanEnd
scan_continue next (leave e) = ([], e)
scan_continue next (found s total) = let (calls, e) = next total in (s ∷ calls, e)

-- The calls of `fn` in order, and how the scan ends.
unfoldable pub scan_loop : ℕ → Pread → Bytes → ℕ → ℕ → List Scanned × ScanEnd
unfolding scan_continue
scan_loop zero pread file file_end off = ([], out_of_fuel)
scan_loop (suc fuel) pread file file_end off =
    scan_continue (λ total. scan_loop fuel pread file file_end (off + total))
      (scan_step pread file file_end off)

-- `VLog::ScanEntries`. Every round that moves on takes twelve bytes at least.
unfoldable pub scan_entries : Pread → Vlog → ℕ → List Scanned × ScanEnd
unfolding scan_loop
scan_entries pread v limit =
    let file_end = if ltb limit v.file_end then limit else v.file_end in
    scan_loop (suc file_end) pread v.file file_end 0
