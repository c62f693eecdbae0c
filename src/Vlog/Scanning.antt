-- ===== src/Vlog/Scanning.antt =====
-- `VLog::ScanEntries` ends, and visits exactly the entries that were written in full.
use bedrockkv.Prelude.{
  ℕ, zero, suc, ◌+◌, ◌%◌, ◌^◌, ◌≤◌, ◌<◌, ◌≡◌, ◌≢◌, refl, Bool, true, false, not, List, arith, Bytes,
  length, take, drop, ltb, leb, ◌==◌, if◌then◌else◌,
}
use bedrockkv.Status.{ok}
use bedrockkv.Encoding.{get_fixed32}
use bedrockkv.Crc32.{crc32}
use bedrockkv.Io.{ReadAnswer, bytes_read, read_error, Pread}
use bedrockkv.Vlog.{
  Vlog, header_size, Scanned, ScanEnd, returned, out_of_fuel, ScanStep, leave, found, scan_continue,
  scan_payload, scan_header, scan_step, scan_loop, scan_entries,
}

-- A step that moves on stays within the file and takes a header at least.
abbrev Moves : ℕ → ℕ → ScanStep → Type 0
Moves file_end off (leave e) = e ≢ out_of_fuel
Moves file_end off (found s total) = (12 ≤ total) × (off + total ≤ file_end)

Moves-if :
    (file_end off : ℕ) (b : Bool) (x y : ScanStep)
    → (b ≡ true → Moves file_end off x)
    → (b ≡ false → Moves file_end off y)
    → Moves file_end off (if b then x else y)
Moves-if file_end off true x y hx hy = hx refl
Moves-if file_end off false x y hx hy = hy refl

scan_payload-Moves :
    (h : Bytes) (klen vsize off file_end : ℕ) (r : ReadAnswer)
    → off + (12 + klen + vsize) ≤ file_end
    → Moves file_end off (scan_payload h klen vsize off r)
unfolding scan_payload
scan_payload-Moves h klen vsize off file_end (read_error e) fits = λ x. cc
scan_payload-Moves h klen vsize off file_end (bytes_read p) fits =
    Moves-if file_end off (ltb (length p) ((klen + vsize) % 2 ^ 32)) _ _ (λ b x. cc)
      (λ b.
        Moves-if file_end off (not (crc32 p (crc32 (take 8 (drop 4 h)) 0) == get_fixed32 h))
          (leave (returned ok))
          (found (record { key = take klen p; value = take vsize (drop klen p); offset = off })
            (header_size + klen + vsize))
          (λ c x. cc) (λ c. omega arith))

scan_header-Moves :
    (pread : Pread) (file : Bytes) (file_end off : ℕ) (r : ReadAnswer)
    → Moves file_end off (scan_header pread file file_end off r)
unfolding scan_header
scan_header-Moves pread file file_end off (read_error e) = λ x. cc
scan_header-Moves pread file file_end off (bytes_read h) =
    let klen : ℕ = get_fixed32 (drop 4 h) in
    let vsize : ℕ = get_fixed32 (drop 8 h) in
    Moves-if file_end off (ltb (length h) header_size) _ _ (λ b x. cc)
      (λ b.
        Moves-if file_end off (ltb file_end (off + (header_size + klen + vsize))) _ _ (λ c x. cc)
          (λ c.
            scan_payload-Moves h klen vsize off file_end
              (pread file ((klen + vsize) % 2 ^ 32) (off + header_size)) (ground arith)))

scan_step-Moves :
    (pread : Pread) (file : Bytes) (file_end off : ℕ)
    → Moves file_end off (scan_step pread file file_end off)
unfolding scan_step
scan_step-Moves pread file file_end off =
    Moves-if file_end off (leb (off + header_size) file_end) _ _
      (λ b. scan_header-Moves pread file file_end off (pread file header_size off)) (λ b x. cc)

scan_continue_ends :
    (next : ℕ → List Scanned × ScanEnd) (file_end off : ℕ) (st : ScanStep)
    → Moves file_end off st
    → ((total : ℕ) → 12 ≤ total → off + total ≤ file_end → (next total).1 ≢ out_of_fuel)
    → (scan_continue next st).1 ≢ out_of_fuel
unfolding scan_continue
scan_continue_ends next file_end off (leave e) m h = m
scan_continue_ends next file_end off (found s total) m h = h total m.0 m.1

scan_loop_ends :
    (fuel : ℕ) (pread : Pread) (file : Bytes) (file_end off : ℕ)
    → off ≤ file_end
    → file_end < fuel + off
    → (scan_loop fuel pread file file_end off).1 ≢ out_of_fuel
unfolding scan_loop
scan_loop_ends zero pread file file_end off le h = absurd (omega arith)
scan_loop_ends (suc fuel) pread file file_end off le h =
    scan_continue_ends (λ total. scan_loop fuel pread file file_end (off + total)) file_end off
      (scan_step pread file file_end off) (scan_step-Moves pread file file_end off)
      (λ total big fits. scan_loop_ends fuel pread file file_end (off + total) fits (omega arith))

-- ScanEntries returns for any file, end, limit and answers of pread.
pub scan_entries_returns :
    (pread : Pread) (v : Vlog) (limit : ℕ) → (scan_entries pread v limit).1 ≢ out_of_fuel
unfolding scan_entries
scan_entries_returns pread v limit =
    let file_end : ℕ = if ltb limit v.file_end then limit else v.file_end in
    scan_loop_ends (suc file_end) pread v.file file_end 0 (omega arith) (omega arith)
