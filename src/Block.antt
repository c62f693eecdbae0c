-- ===== src/Block.antt =====
-- Blocks of a table, include/bedrockkv/block.h and src/block.cpp: the builder, whose keys share
-- prefixes, and the defensive reader.
pub mod Reading
pub mod Entry
pub mod RoundTrip
pub mod Opening
use bedrockkv.Prelude.{
  ℕ, zero, suc, ◌+◌, ◌-◌, ◌*◌, ◌/◌, ◌%◌, ◌^◌, Bool, true, false, not, ◌||◌, List, [], ◌∷◌, ◌++◌,
  Bytes, length, take, drop, ltb, leb, ◌==◌, if◌then◌else◌,
}
use bedrockkv.Encoding.{fixed32, get_fixed32}
use bedrockkv.Key.{key_less}

pub record Builder : Type 0 where
  pub restart_interval : ℕ
  pub buffer : Bytes
  pub restarts : List ℕ
  pub last_key : Bytes
  pub counter : ℕ

-- `Reset`
unfoldable pub reset : Builder → Builder
reset b = record b { buffer = []; restarts = 0 ∷ []; last_key = []; counter = 0 }

abbrev pub new_builder : ℕ → Builder
new_builder interval = record {
  restart_interval = interval;
  buffer = [];
  restarts = 0 ∷ [];
  last_key = [];
  counter = 0;
}

-- How many bytes two keys share in front.
unfoldable pub shared_prefix : Bytes → Bytes → ℕ
shared_prefix [] key = 0
shared_prefix (a ∷ rest) [] = 0
shared_prefix (a ∷ last) (k ∷ ks) =
    let rest = shared_prefix last ks in if a == k then suc rest else 0

-- `shared` of an entry.
unfoldable pub shared_size : Builder → Bytes → ℕ
unfolding shared_prefix
shared_size b key = if ltb b.counter b.restart_interval then shared_prefix b.last_key key else 0

-- Header, the rest of the key and the value.
unfoldable pub entry : ℕ → Bytes → Bytes → Bytes
entry shared key value =
    fixed32 (shared % 2 ^ 32)
    ++ (fixed32 ((length key - shared) % 2 ^ 32)
        ++ (fixed32 (length value % 2 ^ 32) ++ (drop shared key ++ value)))

-- `Add`
unfoldable pub add : Bytes → Bytes → Builder → Builder
unfolding shared_size entry
add key value b = record b {
  buffer = b.buffer ++ entry (shared_size b key) key value;
  restarts =
      if ltb b.counter b.restart_interval
      then b.restarts
      else b.restarts ++ (length b.buffer % 2 ^ 32) ∷ [];
  last_key = key;
  counter = if ltb b.counter b.restart_interval then suc b.counter else 1;
}

unfoldable pub restart_array : List ℕ → Bytes
restart_array [] = []
restart_array (r ∷ rs) = fixed32 r ++ restart_array rs

-- `CurrentSizeEstimate`
unfoldable pub current_size_estimate : Builder → ℕ
current_size_estimate b = length b.buffer + (length b.restarts + 1) * 4

-- `Finish`: the block; the builder behind it is one after `Reset`, but for `last_key_`.
unfoldable pub finish : Builder → Bytes
unfolding restart_array
finish b = b.buffer ++ (restart_array b.restarts ++ fixed32 (length b.restarts % 2 ^ 32))

-- `Block`: the members that a position changes are `valid`, `corrupted`, the key, the value and
-- the end of the entry.
pub record Block : Type 0 where
  pub block_data : Bytes
  pub restart_array_offset : ℕ
  pub num_restarts : ℕ
  pub is_valid : Bool
  pub is_corrupted : Bool
  pub cur_key : Bytes
  pub cur_value : Bytes
  pub entry_end : ℕ

abbrev pub header_size : ℕ
header_size = 12

-- The loop over the restart offsets: all of them lie in front of the array.
unfoldable pub offsets_ok : ℕ → Bytes → ℕ → Bool
offsets_ok zero array limit = true
offsets_ok (suc count) array limit =
    let rest = offsets_ok count (drop 4 array) limit in
    if leb limit (get_fixed32 array) then false else rest

abbrev pub no_block : Bytes → ℕ → ℕ → Bool → Block
no_block bytes offset restarts bad = record {
  block_data = bytes;
  restart_array_offset = offset;
  num_restarts = restarts;
  is_valid = false;
  is_corrupted = bad;
  cur_key = [];
  cur_value = [];
  entry_end = 0;
}

-- `Block::Block`
unfoldable pub open_block : Bytes → Block
unfolding offsets_ok
open_block bytes =
    let n = get_fixed32 (drop (length bytes - 4) bytes) in
    let trailer = (n + 1) * 4 in
    let offset = length bytes - trailer in
    if ltb (length bytes) 4
    then no_block bytes 0 0 true
    else if ltb (length bytes) trailer || n == 0
    then no_block bytes 0 n true
    else if offsets_ok n (drop offset bytes) offset
    then no_block bytes offset n false
    else no_block bytes offset n true

abbrev pub spoiled : Block → Block
spoiled b = record b { is_valid = false; is_corrupted = true }

-- `ParseEntry`; `key_scratch_` is `cur_key_`.
unfoldable pub parse_entry : ℕ → Block → Block
parse_entry offset b =
    let here = drop offset b.block_data in
    let shared = get_fixed32 here in
    let non_shared = get_fixed32 (drop 4 here) in
    let value_len = get_fixed32 (drop 8 here) in
    if offset == b.restart_array_offset
    then record b { is_valid = false }
    else if ltb b.restart_array_offset offset || ltb b.restart_array_offset (offset + header_size)
    then spoiled b
    else if ltb (length b.cur_key) shared
    then spoiled b
    else if ltb (b.restart_array_offset - offset - header_size) (non_shared + value_len)
    then spoiled b
    else record b {
      is_valid = true;
      cur_key = take shared b.cur_key ++ take non_shared (drop header_size here);
      cur_value = take value_len (drop (header_size + non_shared) here);
      entry_end = offset + header_size + non_shared + value_len;
    }

-- `SeekToFirst`
unfoldable pub seek_to_first : Block → Block
unfolding parse_entry
seek_to_first b = if b.is_corrupted then record b { is_valid = false } else parse_entry 0 b

-- `Next`
unfoldable pub next : Block → Block
unfolding parse_entry
next b =
    if b.is_corrupted || not b.is_valid
    then record b { is_valid = false }
    else parse_entry b.entry_end b

unfoldable pub restart_offset : Block → ℕ → ℕ
restart_offset b i = get_fixed32 (drop (b.restart_array_offset + i * 4) b.block_data)

-- `KeyAtRestart`
unfoldable pub key_at_restart : Block → ℕ → Bytes
unfolding restart_offset
key_at_restart b i =
    let off = restart_offset b i in
    let non_shared = get_fixed32 (drop (off + 4) b.block_data) in
    if ltb b.restart_array_offset (off + header_size)
    then []
    else take non_shared (drop (off + header_size) b.block_data)

-- The binary search of `Seek` over the restart points. Each round halves what is left.
unfoldable pub bisect : ℕ → Bytes → Block → ℕ → ℕ → ℕ
unfolding key_at_restart
bisect zero target b left right = left
bisect (suc fuel) target b left right =
    let mid = (left + right + 1) / 2 in
    let upper = bisect fuel target b mid right in
    let lower = bisect fuel target b left (mid - 1) in
    if ltb left right then if key_less (key_at_restart b mid) target then upper else lower else left

-- The scan of `Seek` from an offset on. Each entry takes twelve bytes at least.
unfoldable pub seek_scan : ℕ → Bytes → ℕ → Block → Block
unfolding parse_entry
seek_scan zero target offset b = b
seek_scan (suc fuel) target offset b =
    let p = parse_entry offset b in
    let rest = seek_scan fuel target p.entry_end p in
    if ltb offset b.restart_array_offset
    then if not p.is_valid then p else if key_less p.cur_key target then rest else p
    else record b { is_valid = false }

-- `Seek`
unfoldable pub seek : Bytes → Block → Block
unfolding bisect seek_scan restart_offset
seek target b =
    let left = bisect b.num_restarts target b 0 (b.num_restarts - 1) in
    if b.is_corrupted
    then record b { is_valid = false }
    else seek_scan (suc b.restart_array_offset) target (restart_offset b left) b
