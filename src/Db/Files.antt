-- ===== src/Db/Files.antt =====
-- The files of a database, src/db.cpp: their names, `ParseNumberedFile`, `RemoveOrphanFiles` and the
-- logs that `DB::Open` replays.
pub mod Live
use bedrockkv.Prelude.{
  ℕ, ◌+◌, ◌-◌, ◌*◌, ◌/◌, ◌^◌, Bool, true, false, not, ◌&&◌, ◌||◌, Option, none, some, List, [], ◌∷◌,
  ◌++◌, Bytes, length, take, drop, ltb, leb, ◌==◌, if◌then◌else◌,
}
use bedrockkv.Prelude.Order.{bytes_eq}
use bedrockkv.Prelude.Text.{codes, decimal, is_digit}
use bedrockkv.Vlog.{pad6}

-- `SstFileName`; `LogFileName` is in Write/Calls, `VlogFileName` in Vlog.
unfoldable pub sst_file_name : ℕ → Bytes
sst_file_name number = pad6 (decimal number) ++ codes ".sst"

-- The loop of `ParseNumberedFile`; a number out of 64 bits is refused.
unfoldable pub parse_number : ℕ → Bytes → Option ℕ
unfolding is_digit
parse_number n [] = some n
parse_number n (c ∷ cs) =
    let rest = parse_number (n * 10 + (c - b'0')) cs in
    if not (is_digit c) then none else if ltb ((2 ^ 64 - 1 - (c - b'0')) / 10) n then none else rest

-- `ParseNumberedFile`
unfoldable pub parse_numbered : Bytes → Bytes → Option ℕ
unfolding parse_number
parse_numbered name suffix =
    if leb (length name) (length suffix)
      || not (bytes_eq (drop (length name - length suffix) name) suffix)
    then none
    else parse_number 0 (take (length name - length suffix) name)

unfoldable pub is_listed : ℕ → List ℕ → Bool
is_listed n [] = false
is_listed n (m ∷ ms) = n == m || is_listed n ms

-- A file with the suffix whose number passes the test.
unfoldable pub is_numbered : (ℕ → Bool) → Option ℕ → Bool
is_numbered test none = false
is_numbered test (some n) = test n

-- The files that `RemoveOrphanFiles` unlinks.
unfoldable pub is_orphan : List ℕ → ℕ → List ℕ → Bytes → Bool
unfolding is_numbered parse_numbered is_listed
is_orphan live log_floor live_vlogs name =
    bytes_eq name (codes "MANIFEST.tmp")
    || is_numbered (λ n. not (is_listed n live)) (parse_numbered name (codes ".sst"))
    || is_numbered (λ n. ltb n log_floor) (parse_numbered name (codes ".log"))
    || is_numbered (λ n. not (is_listed n live_vlogs)) (parse_numbered name (codes ".vlog"))

-- The directory behind `RemoveOrphanFiles`; a file that cannot be unlinked stays, too.
unfoldable pub remove_orphans : (Bytes → Bool) → List ℕ → ℕ → List ℕ → List Bytes → List Bytes
unfolding is_orphan
remove_orphans unlinks live log_floor live_vlogs [] = []
remove_orphans unlinks live log_floor live_vlogs (name ∷ names) =
    let rest = remove_orphans unlinks live log_floor live_vlogs names in
    if is_orphan live log_floor live_vlogs name && unlinks name then rest else name ∷ rest

-- The numbers of the logs in a directory that are not below the floor.
unfoldable pub add_log : ℕ → Option ℕ → List ℕ → List ℕ
add_log floor none rest = rest
add_log floor (some n) rest = if leb floor n then n ∷ rest else rest

unfoldable pub logs_from : ℕ → List Bytes → List ℕ
unfolding add_log parse_numbered
logs_from floor [] = []
logs_from floor (name ∷ names) =
    add_log floor (parse_numbered name (codes ".log")) (logs_from floor names)

unfoldable pub insert_number : ℕ → List ℕ → List ℕ
insert_number n [] = n ∷ []
insert_number n (m ∷ ms) = let rest = insert_number n ms in if leb n m then n ∷ m ∷ ms else m ∷ rest

unfoldable pub sort_numbers : List ℕ → List ℕ
unfolding insert_number
sort_numbers [] = []
sort_numbers (n ∷ ns) = insert_number n (sort_numbers ns)

-- The logs that `DB::Open` replays, oldest first.
unfoldable pub replayed_logs : ℕ → List Bytes → List ℕ
unfolding sort_numbers logs_from
replayed_logs floor names =
    let numbers = sort_numbers (logs_from floor names) in
    if length numbers == 0 then floor ∷ [] else numbers
