-- ===== src/Block/Reading.antt =====
-- The reader of src/block.cpp stays within the block, whatever the bytes.
use bedrockkv.Prelude.{
  ℕ, zero, suc, ◌+◌, ◌-◌, ◌*◌, ◌≤◌, ◌≡◌, refl, Bool, true, false, not, ◌||◌, inl, inr, Bool-cases,
  arith, Bytes, length, drop, ltb, ◌==◌, if◌then◌else◌,
}
use bedrockkv.Encoding.{get_fixed32}
use bedrockkv.Key.{key_less}
use bedrockkv.Block.{
  Block, offsets_ok, open_block, parse_entry, seek_to_first, next, bisect, seek_scan, seek,
  restart_offset,
}

-- A position lies in front of the restart array, and that within the block.
abbrev pub IsInBounds : Block → Type 0
IsInBounds b =
    (b.restart_array_offset ≤ length b.block_data)
    × (b.is_valid ≡ true → b.entry_end ≤ b.restart_array_offset)

parse_entry-IsInBounds : (offset : ℕ) (b : Block) → IsInBounds b → IsInBounds (parse_entry offset b)
unfolding parse_entry
parse_entry-IsInBounds offset b h =
    split (offset == b.restart_array_offset)
      (ltb b.restart_array_offset offset || ltb b.restart_array_offset (offset + 12))
      (ltb (length b.cur_key) (get_fixed32 here))
      (ltb (b.restart_array_offset - offset - 12) (non_shared + value_len)) refl refl refl refl
  where
    here : Bytes
    here = drop offset b.block_data

    non_shared : ℕ
    non_shared = get_fixed32 (drop 4 here)

    value_len : ℕ
    value_len = get_fixed32 (drop 8 here)

    split :
        (at_end outside long past : Bool)
        → (offset == b.restart_array_offset) ≡ at_end
        → (ltb b.restart_array_offset offset || ltb b.restart_array_offset (offset + 12)) ≡ outside
        → ltb (length b.cur_key) (get_fixed32 here) ≡ long
        → ltb (b.restart_array_offset - offset - 12) (non_shared + value_len) ≡ past
        → IsInBounds (parse_entry offset b)
    split true outside long past p q r s = rw p (h.0, λ v. absurd (cc v))
    split false true long past p q r s = rw (p, q) (h.0, λ v. absurd (cc v))
    split false false true past p q r s = rw (p, q, r) (h.0, λ v. absurd (cc v))
    split false false false true p q r s = rw (p, q, r, s) (h.0, λ v. absurd (cc v))
    split false false false false p q r s = rw (p, q, r, s) (h.0, λ v. ground (arith, q, s))

pub open_block-IsInBounds : (bytes : Bytes) → IsInBounds (open_block bytes)
unfolding open_block
open_block-IsInBounds bytes =
    split (ltb (length bytes) 4) (ltb (length bytes) ((n + 1) * 4) || n == 0)
      (offsets_ok n (drop offset bytes) offset) refl refl refl
  where
    n : ℕ
    n = get_fixed32 (drop (length bytes - 4) bytes)

    offset : ℕ
    offset = length bytes - (n + 1) * 4

    split :
        (tiny short good : Bool)
        → ltb (length bytes) 4 ≡ tiny
        → (ltb (length bytes) ((n + 1) * 4) || n == 0) ≡ short
        → offsets_ok n (drop offset bytes) offset ≡ good
        → IsInBounds (open_block bytes)
    split true short good p q r = rw p (omega arith, λ v. absurd (cc v))
    split false true good p q r = rw (p, q) (omega arith, λ v. absurd (cc v))
    split false false true p q r = rw (p, q, r) (omega arith, λ v. absurd (cc v))
    split false false false p q r = rw (p, q, r) (omega arith, λ v. absurd (cc v))

seek_scan-IsInBounds :
    (fuel : ℕ) (target : Bytes) (offset : ℕ) (b : Block)
    → IsInBounds b
    → IsInBounds (seek_scan fuel target offset b)
unfolding seek_scan
seek_scan-IsInBounds zero target offset b h = h
seek_scan-IsInBounds (suc fuel) target offset b h =
    let p = parse_entry offset b in
    let parsed = parse_entry-IsInBounds offset b h in
    let rest = seek_scan-IsInBounds fuel target p.entry_end p parsed in
    elim (Bool-cases (ltb offset b.restart_array_offset)) [
      | inr past ↦ rw past (h.0, λ v. absurd (cc v))
      | inl within ↦ elim (Bool-cases p.is_valid) [
        | inr stopped ↦ rw (within, stopped) parsed
        | inl good ↦ elim (Bool-cases (key_less p.cur_key target)) [
          | inl before ↦ rw (within, good, before) rest
          | inr found ↦ rw (within, good, found) parsed
        ]
      ]
    ]

choose-IsInBounds :
    (c : Bool) (x y : Block) → IsInBounds x → IsInBounds y → IsInBounds (if c then x else y)
choose-IsInBounds true x y h k = h
choose-IsInBounds false x y h k = k

-- Whatever the bytes of a block, SeekToFirst, Next and Seek keep the restart array within the
-- block, and a valid position ends in front of that array.
pub moves-IsInBounds :
    (b : Block)
    → IsInBounds b
    → IsInBounds (seek_to_first b)
      × IsInBounds (next b)
      × ((target : Bytes) → IsInBounds (seek target b))
unfolding seek_to_first next seek
moves-IsInBounds b h =
    let stopped : IsInBounds (record b { is_valid = false }) = (h.0, λ v. absurd (cc v)) in
    (
      choose-IsInBounds b.is_corrupted _ _ stopped (parse_entry-IsInBounds 0 b h),
      choose-IsInBounds (b.is_corrupted || not b.is_valid) _ _ stopped
          (parse_entry-IsInBounds b.entry_end b h),
      λ target. choose-IsInBounds b.is_corrupted _ _ stopped (
          seek_scan-IsInBounds (suc b.restart_array_offset) target
            (restart_offset b (bisect b.num_restarts target b 0 (b.num_restarts - 1))) b h),
    )
