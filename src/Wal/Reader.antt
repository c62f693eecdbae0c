-- ===== src/Wal/Reader.antt =====
-- `log::Reader`, src/log.cpp. The state holds what `fd_` has not delivered yet as `file`.
use bedrockkv.Prelude.{
  ℕ, zero, suc, ◌+◌, ◌-◌, ◌*◌, Bool, true, false, not, ◌&&◌, ◌||◌, [], ◌∷◌, ◌++◌, Bytes, ◌≡◌,
  length, take, drop, byte_at, ltb, ◌==◌, if◌then◌else◌,
}
use bedrockkv.Encoding.{get_fixed32}
use bedrockkv.Crc32.{crc32}
use bedrockkv.Wal.{block_size, header_size}

pub record Reader : Type 0 where
  pub file : Bytes
  pub buffer : Bytes
  pub pos : ℕ
  pub eof : Bool
  pub bytes_read : ℕ
  pub last_good_end : ℕ
  pub scratch : Bytes

-- What the loop around `::read` for one block comes to: the block, whether the end of the file was
-- met, and what the file still holds; or an error.
pub data Fill : Type 0 where
  filled : Bytes → Bool → Bytes → Fill
  fill_failed : Fill

-- The loop on a file whose reads do not fail: it goes on until the block is full or the file ends.
abbrev pub IsFaithful : (Bytes → Fill) → Type 0
IsFaithful fill =
    (file : Bytes)
    → fill file
      ≡ filled (take block_size file) (ltb (length file) block_size) (drop block_size file)

pub data Physical : Type 0 where
  fragment : Bytes → ℕ → ℕ → Physical
  end_of_file : Physical
  corrupt : Physical
  no_fuel : Physical

-- A round of the loop of `ReadPhysicalRecord` goes on or returns.
pub data PhysicalStep : Type 0 where
  again : Reader → PhysicalStep
  give : Physical → Reader → PhysicalStep

-- The end of the refill: a block has been read, or none.
unfoldable pub refill : Reader → Fill → PhysicalStep
refill r fill_failed = give corrupt r
refill r (filled block at_end rest) =
    if length block == 0
    then give end_of_file (record r { eof = at_end; file = rest })
    else again (record r {
      buffer = block;
      pos = 0;
      eof = at_end;
      bytes_read = r.bytes_read + length block;
      file = rest;
    })

-- The round at a whole header at `pos_`.
unfoldable pub at_header : Reader → PhysicalStep
at_header r =
    let here = drop r.pos r.buffer in
    let len = get_fixed32 here in
    let stored_crc = get_fixed32 (drop 4 here) in
    let t = byte_at here 8 in
    let data_pos = r.pos + header_size in
    let frag = take len (drop data_pos r.buffer) in
    if t == 0 && (len == 0 && stored_crc == 0)
    then again (record r { pos = length r.buffer })
    else if ltb (block_size - header_size) len || ltb (length r.buffer) (data_pos + len)
    then give corrupt (record r { pos = data_pos })
    else if not (crc32 frag (crc32 (t ∷ []) 0) == stored_crc)
    then give corrupt (record r { pos = data_pos + len })
    else give (fragment frag t (r.bytes_read - length r.buffer + (data_pos + len)))
        (record r { pos = data_pos + len })

unfoldable pub physical_step : (Bytes → Fill) → Reader → PhysicalStep
unfolding refill at_header
physical_step fill r =
    if ltb (length r.buffer) (r.pos + header_size)
    then (if r.eof
        then give end_of_file r
        else refill (record r { pos = length r.buffer }) (fill r.file))
    else at_header r

unfoldable pub physical_continue : (Reader → Physical × Reader) → PhysicalStep → Physical × Reader
physical_continue next (again r) = next r
physical_continue next (give p r) = (p, r)

unfoldable pub physical_loop : ℕ → (Bytes → Fill) → Reader → Physical × Reader
unfolding physical_continue
physical_loop zero fill r = (no_fuel, r)
physical_loop (suc fuel) fill r = physical_continue (physical_loop fuel fill) (physical_step fill r)

-- `Reader::ReadPhysicalRecord`. Each refill but the last takes a byte of the file at least, and a
-- round that skips the rest of a block is followed by a refill.
unfoldable pub read_physical_record : (Bytes → Fill) → Reader → Physical × Reader
unfolding physical_loop
read_physical_record fill r = physical_loop (2 * length r.file + 4) fill r

-- What `ReadRecord` returns; a corruption comes with the safe truncation point.
pub data ReadResult : Type 0 where
  payload : Bytes → ReadResult
  log_end : ReadResult
  corruption_at : ℕ → ReadResult
  out_of_fuel : ReadResult

-- A round of the loop of `ReadRecord` goes on, inside a fragmented record, or returns.
pub data RecordStep : Type 0 where
  inside : Reader → RecordStep
  finish : ReadResult → Reader → RecordStep

-- The switch on the type of a fragment.
unfoldable pub on_fragment : Bool → Bytes → ℕ → ℕ → Reader → RecordStep
on_fragment in_fragmented frag t end_offset r =
    let fail = finish (corruption_at r.last_good_end) r in
    if t == 1
    then (if in_fragmented
        then fail
        else finish (payload frag) (record r { last_good_end = end_offset }))
    else if t == 2
    then (if in_fragmented then fail else inside (record r { scratch = frag }))
    else if t == 3
    then (if in_fragmented then inside (record r { scratch = r.scratch ++ frag }) else fail)
    else if t == 4
    then (if in_fragmented
        then finish (payload (r.scratch ++ frag))
            (record r { last_good_end = end_offset; scratch = [] })
        else fail)
    else fail

unfoldable pub record_step : Bool → Physical × Reader → RecordStep
unfolding on_fragment
record_step in_fragmented (fragment frag t end_offset, r) =
    on_fragment in_fragmented frag t end_offset r
record_step in_fragmented (end_of_file, r) =
    finish (if in_fragmented then corruption_at r.last_good_end else log_end) r
record_step in_fragmented (corrupt, r) = finish (corruption_at r.last_good_end) r
record_step in_fragmented (no_fuel, r) = finish out_of_fuel r

unfoldable pub record_continue : (Reader → ReadResult × Reader) → RecordStep → ReadResult × Reader
record_continue next (inside r) = next r
record_continue next (finish res r) = (res, r)

unfoldable pub record_loop : ℕ → (Bytes → Fill) → Bool → Reader → ReadResult × Reader
unfolding record_continue record_step
record_loop zero fill in_fragmented r = (out_of_fuel, r)
record_loop (suc fuel) fill in_fragmented r =
    record_continue (record_loop fuel fill true)
      (record_step in_fragmented (read_physical_record fill r))

-- `Reader::ReadRecord`. Each round but the last takes a header of the file or the buffer.
unfoldable pub read_record : (Bytes → Fill) → Reader → ReadResult × Reader
unfolding record_loop
read_record fill r =
    record_loop (length r.file + length r.buffer + 2) fill false (record r { scratch = [] })

-- A reader that has read nothing yet.
abbrev pub fresh : Bytes → Reader
fresh file = record {
  file = file;
  buffer = [];
  pos = 0;
  eof = false;
  bytes_read = 0;
  last_good_end = 0;
  scratch = [];
}
