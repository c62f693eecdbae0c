-- ===== src/Vlog/Recovery.antt =====
-- What a scan of a log visits: all entries in order, up to a torn tail.
use bedrockkv.Prelude.{
  ℕ, zero, suc, ◌+◌, ◌%◌, ◌^◌, ◌≤◌, ◌<◌, ◌≡◌, refl, ap, sym, ◌∙◌, List, [], ◌∷◌, ◌++◌, append-nil,
  append_assoc, arith, Bytes, IsU32, All, Bool-cases, inl, inr, length, take, drop, ltb, leb,
  if◌then◌else◌, length-append, take-append, drop-append, drop-drop, take_all, take_prefix,
}
use bedrockkv.Status.{ok}
use bedrockkv.Io.{bytes_read, Pread, IsExact}
use bedrockkv.Vlog.{
  open_vlog, entry, Scanned, returned, leave, found, scan_continue, scan_step, scan_loop,
  scan_entries,
}
use bedrockkv.Vlog.Reading.{
  header, take-header, drop-header, length-entry, length-header, header-klen, header-vsize,
  header-crc,
}

-- The key and the value are below 4 GiB together: `ScanEntries` adds their sizes in 32 bits.
abbrev pub Fits : Bytes × Bytes → Type 0
Fits e = IsU32 (length e.0 + length e.1)

-- The file that appending the entries in order makes.
abbrev pub entries_bytes : List (Bytes × Bytes) → Bytes
entries_bytes [] = []
entries_bytes (e ∷ es) = entry e.0 e.1 ++ entries_bytes es

-- Each entry with its offset.
abbrev pub calls_from : ℕ → List (Bytes × Bytes) → List Scanned
calls_from off [] = []
calls_from off (e ∷ es) =
    record { key = e.0; value = e.1; offset = off } ∷ calls_from (off + length (entry e.0 e.1)) es

-- A tail that a crash left: nothing, or a proper prefix of an entry.
pub record IsTorn (tail : Bytes) : Type 0 where
  pub key : Bytes
  pub value : Bytes
  pub next : ℕ
  pub missing : Bytes
  pub fits : Fits (key, value)
  pub cut : entry key value ≡ tail ++ next ∷ missing

module _ (pread : Pread) (exact : IsExact pread) (pre key value post : Bytes)
    (fits : Fits (key, value)) where
  abbrev whole : Bytes
  whole = pre ++ (entry key value ++ post)

  read_header : pread whole 12 (length pre) ≡ bytes_read (header key value)
  read_header =
      exact whole 12 (length pre)
      ∙ ap (λ (f : Bytes). bytes_read (take 12 f))
          (drop-append (length pre) pre (entry key value ++ post) refl)
      ∙ ap bytes_read (take-header key value post)

  read_payload :
      pread whole ((length key + length value) % 2 ^ 32) (length pre + 12)
      ≡ bytes_read (key ++ value)
  read_payload =
      exact whole ((length key + length value) % 2 ^ 32) (length pre + 12)
      ∙ ap (λ (f : Bytes). bytes_read (take ((length key + length value) % 2 ^ 32) f))
          (sym (drop-drop 12 (length pre) whole)
            ∙ ap (drop 12) (drop-append (length pre) pre (entry key value ++ post) refl)
            ∙ drop-header key value post)
      ∙ ap bytes_read (
          take-append ((length key + length value) % 2 ^ 32) (key ++ value) post
            (omega (arith, length-append key value)))

  value_part : take (length value) (drop (length key) (key ++ value)) ≡ value
  value_part =
      ap (take (length value)) (drop-append (length key) key value refl)
      ∙ take_all (length value) value (omega arith)

  -- One round at an entry that lies within the limit.
  pub step_entry :
      (file_end : ℕ)
      → length pre + length (entry key value) ≤ file_end
      → scan_step pread whole file_end (length pre)
        ≡ found
            (record { key = key; value = value; offset = length pre })
            (length (entry key value))
  unfolding scan_step
  step_entry file_end within =
      rw
        (
          read_header,
          header-klen key value (omega arith),
          header-vsize key value (omega arith),
          read_payload,
          header-crc key value,
          value_part,
          take-append (length key) key value refl,
        )
        (ground (arith, length-header key value, length-entry key value, length-append key value))

-- The header of a torn entry is whole, if twelve bytes of it are there.
module _ (tail : Bytes) (t : IsTorn tail) where
  open t use {key, value, next, missing, fits, cut}

  torn_header : 12 ≤ length tail → take 12 tail ≡ header key value
  torn_header h =
      sym (take_prefix 12 tail (next ∷ missing) h)
      ∙ ap (take 12) (sym cut ∙ sym (append-nil (entry key value)))
      ∙ take-header key value []

  torn_short : length tail < length (entry key value)
  torn_short = omega (arith, ap length cut, length-append tail (next ∷ missing))

  -- One round at a torn tail leaves the loop.
  pub step_torn :
      (pread : Pread)
      → IsExact pread
      → (pre : Bytes)
      → scan_step pread (pre ++ tail) (length pre + length tail) (length pre) ≡ leave (returned ok)
  unfolding scan_step
  step_torn pread exact pre = elim (Bool-cases (leb 12 (length tail))) [
    | inl whole_header ↦
        rw
          (
            read (ground arith),
            header-klen key value (omega arith),
            header-vsize key value (omega arith),
          )
          (ground (arith, length-header key value, length-entry key value, torn_short))
    | inr short ↦ ground arith
  ]
    where
      read : 12 ≤ length tail → pread (pre ++ tail) 12 (length pre) ≡ bytes_read (header key value)
      read h =
          exact (pre ++ tail) 12 (length pre)
          ∙ ap (λ (f : Bytes). bytes_read (take 12 f)) (drop-append (length pre) pre tail refl)
          ∙ ap bytes_read (torn_header h)

-- Fuel for the entries and one round more.
scan_loop-entries :
    (pread : Pread) (exact : IsExact pread) (fuel : ℕ) (pre tail file : Bytes)
    (es : List (Bytes × Bytes)) (file_end : ℕ)
    → All Fits es
    → IsTorn tail
    → file ≡ pre ++ (entries_bytes es ++ tail)
    → file_end ≡ length file
    → file_end < fuel + length pre
    → scan_loop fuel pread file file_end (length pre) ≡ (calls_from (length pre) es, returned ok)
unfolding scan_loop scan_continue
scan_loop-entries pread exact zero pre tail file es file_end fit torn e le h =
    absurd (omega (arith, ap length e, length-append pre (entries_bytes es ++ tail)))
scan_loop-entries pread exact (suc fuel) pre tail file [] file_end fit torn e le h =
    let at_end : file_end ≡ length pre + length tail =
      omega (arith, le, ap length e, length-append pre tail) in
    rw (e, at_end) (rw (step_torn tail torn pread exact pre) refl)
scan_loop-entries pread exact (suc fuel) pre tail file ((k, v) ∷ es) file_end fit torn e le h =
    let rest : Bytes = entries_bytes es ++ tail in
    let regroup : file ≡ pre ++ (entry k v ++ rest) =
      e ∙ ap (◌++◌ pre) (append_assoc (entry k v) (entries_bytes es) tail) in
    let size : file_end ≡ length pre + (length (entry k v) + length rest) = omega (
      arith,
      le,
      ap length regroup,
      length-append pre (entry k v ++ rest),
      length-append (entry k v) rest,
    ) in
    let st : scan_step pread file file_end (length pre)
        ≡ found (record { key = k; value = v; offset = length pre }) (length (entry k v)) =
      rw regroup (step_entry pread exact pre k v rest fit.0 file_end (omega (arith, size))) in
    let moved : length (pre ++ entry k v) ≡ length pre + length (entry k v) =
      length-append pre (entry k v) in
    let ih : scan_loop fuel pread file file_end (length pre + length (entry k v))
        ≡ (calls_from (length pre + length (entry k v)) es, returned ok) =
      rw (← moved) (
        scan_loop-entries pread exact fuel (pre ++ entry k v) tail file es file_end fit.1 torn
          (regroup ∙ sym (append_assoc pre (entry k v) rest)) le
          (omega (arith, moved, h, length-entry k v))) in
    rw st (rw ih refl)

-- ScanEntries over appended entries and a torn tail calls back for every entry in order with its
-- key, value and offset, and returns Ok, if the key and the value of every entry are below 4 GiB
-- together, the torn tail is a proper prefix of such an entry, the limit is not below the size of
-- the file, and pread reads exactly.
pub scan_entries_complete :
    (pread : Pread) (number : ℕ) (es : List (Bytes × Bytes)) (tail : Bytes) (limit : ℕ)
    → IsExact pread
    → All Fits es
    → IsTorn tail
    → length (entries_bytes es ++ tail) ≤ limit
    → scan_entries pread (open_vlog number (entries_bytes es ++ tail)) limit
      ≡ (calls_from 0 es, returned ok)
unfolding scan_entries open_vlog
scan_entries_complete pread number es tail limit exact fit torn le =
    let file : Bytes = entries_bytes es ++ tail in
    let whole : (if ltb limit (length file) then limit else length file) ≡ length file =
      ground arith in
    rw whole (
      scan_loop-entries pread exact (suc (length file)) [] tail file es (length file) fit torn refl
        refl (omega arith))
