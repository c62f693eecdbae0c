-- ===== src/Wal.antt =====
-- The write-ahead log, include/bedrockkv/log.h and src/log.cpp: the writer's fragments and the
-- reader that puts them together again.
pub mod Reader
pub mod Position
pub mod Fill
pub mod Physical
pub mod Record
pub mod Logical
pub mod RoundTrip
pub mod Log
pub mod Truncation
use bedrockkv.Prelude.{
  ℕ, zero, suc, ◌+◌, ◌-◌, ◌%◌, Bool, true, false, [], ◌∷◌, ◌++◌, Bytes, List, length, take, drop,
  replicate, ltb, ◌==◌, if◌then◌else◌,
}
use bedrockkv.Prelude.Text.{codes}
use bedrockkv.Status.{Status, ok, io_error}
use bedrockkv.Encoding.{fixed32}
use bedrockkv.Crc32.{crc32}
use bedrockkv.Io.{WriteAnswer, WriteResult, all_written, write_failed, still_waiting, write_all}

abbrev pub block_size : ℕ
block_size = 32768

abbrev pub header_size : ℕ
header_size = 9

abbrev pub zero_type : ℕ
zero_type = 0

abbrev pub full_type : ℕ
full_type = 1

abbrev pub first_type : ℕ
first_type = 2

abbrev pub middle_type : ℕ
middle_type = 3

abbrev pub last_type : ℕ
last_type = 4

-- `type` from `begin` and `frag == left`
unfoldable pub record_type : Bool → Bool → ℕ
record_type true true = full_type
record_type true false = first_type
record_type false true = last_type
record_type false false = middle_type

-- The header and the fragment that are appended to `*out` in one round.
unfoldable pub physical_record : ℕ → Bytes → Bytes
physical_record type fragment =
    fixed32 (length fragment)
    ++ (fixed32 (crc32 fragment (crc32 (type ∷ []) 0)) ++ (type ∷ fragment))

-- A block tail too short for a header.
abbrev pub is_short_tail : ℕ → Bool
is_short_tail block_off = ltb (block_size - block_off) header_size

unfoldable pub padding : ℕ → Bytes
padding block_off = if is_short_tail block_off then replicate (block_size - block_off) 0 else []

-- `block_off` after the padding.
unfoldable pub aligned : ℕ → ℕ
aligned block_off = if is_short_tail block_off then 0 else block_off

-- `frag`
unfoldable pub fragment_size : ℕ → ℕ → ℕ
fragment_size block_off left =
    let avail = block_size - block_off - header_size in if ltb left avail then left else avail

-- The do-while loop of `Writer::EncodeRecord`: `payload` is what is left from `p` on.
unfoldable pub encode_loop : ℕ → ℕ → Bool → Bytes → Bytes
unfolding aligned fragment_size
encode_loop zero block_off begin payload = []
encode_loop (suc fuel) block_off begin payload =
    let off = aligned block_off in
    let frag = fragment_size off (length payload) in
    let more = encode_loop fuel (off + header_size + frag) false (drop frag payload) in
    padding block_off
    ++ (physical_record (record_type begin (frag == length payload)) (take frag payload)
        ++ (if ltb 0 (length payload - frag) then more else []))

-- `Writer::EncodeRecord`. Of two rounds in a row one takes a byte at least.
unfoldable pub encode_record : Bytes → ℕ → Bytes
unfolding encode_loop
encode_record payload absolute_offset =
    encode_loop (length payload + 2) (absolute_offset % block_size) true payload

-- The file behind a writer's descriptor, and `file_offset_`.
pub record Writer : Type 0 where
  pub file : Bytes
  pub file_offset : ℕ

-- How a call of `AddRecord` returns; a call that waits for the kernel has not returned.
pub data Added : Type 0 where
  added : Status → Added
  add_waiting : Added

unfoldable pub add_end : Writer → Bytes × WriteResult → ℕ → Writer × Added
add_end w (file, all_written) size =
    (record { file = file; file_offset = w.file_offset + size }, added ok)
add_end w (file, write_failed) size =
    (record w { file = file }, added (io_error (codes "WAL write failed: ")))
add_end w (file, still_waiting) size = (record w { file = file }, add_waiting)

-- `Writer::AddRecord`; the text of the error number is left out of the message.
unfoldable pub add_record : List WriteAnswer → Bytes → Writer → Writer × Added
unfolding add_end
add_record answers payload w =
    let bytes = encode_record payload w.file_offset in
    add_end w (write_all answers bytes w.file) (length bytes)
