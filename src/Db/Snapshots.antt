-- ===== src/Db/Snapshots.antt =====
-- The snapshots of src/db.cpp: `GetSnapshot`, `ReleaseSnapshot` and `SmallestSnapshotSeq`. A snapshot
-- is told apart by a handle, its address.
use bedrockkv.Prelude.{
  ℕ, ◌-◌, ◌≤◌, ◌≡◌, refl, ap, sym, ◌∙◌, Bool, true, false, Option, none, some, List, [], ◌∷◌, ◌++◌,
  arith, Bytes, All, min, ◌==◌, if◌then◌else◌,
}
use bedrockkv.Db.Compaction.{Entry, compact}
use bedrockkv.Db.Compaction.Visible.{visible, read, IsMerged}
use bedrockkv.Db.Compaction.Retention.{read-compact}
use bedrockkv.Db.Read.{max_seq}
use bedrockkv.Db.Read.Runs.{IsOther, visible-nothing}

-- `Snapshot`
pub record Snapshot : Type 0 where
  pub handle : ℕ
  pub seq : ℕ

-- `GetSnapshot`, at the address of the new snapshot.
unfoldable pub get_snapshot : ℕ → ℕ → List Snapshot → List Snapshot
get_snapshot handle next_seq snapshots =
    snapshots ++ record { handle = handle; seq = next_seq - 1 } ∷ []

-- `ReleaseSnapshot`
unfoldable pub release_snapshot : ℕ → List Snapshot → List Snapshot
release_snapshot handle [] = []
release_snapshot handle (s ∷ snapshots) =
    let rest = release_snapshot handle snapshots in
    if s.handle == handle then snapshots else s ∷ rest

unfoldable pub smallest_loop : ℕ → List Snapshot → ℕ
smallest_loop smallest [] = smallest
smallest_loop smallest (s ∷ snapshots) = smallest_loop (min smallest s.seq) snapshots

-- `SmallestSnapshotSeq`
unfoldable pub smallest_snapshot_seq : List Snapshot → ℕ
unfolding smallest_loop
smallest_snapshot_seq snapshots = smallest_loop max_seq snapshots

smallest_loop-le : (m : ℕ) (snapshots : List Snapshot) → smallest_loop m snapshots ≤ m
unfolding smallest_loop
smallest_loop-le m [] = omega arith
smallest_loop-le m (s ∷ snapshots) = omega (arith, smallest_loop-le (min m s.seq) snapshots)

smallest_loop-below :
    (m : ℕ) (snapshots : List Snapshot)
    → All (λ (s : Snapshot). smallest_loop m snapshots ≤ s.seq) snapshots
unfolding smallest_loop
smallest_loop-below m [] = tt
smallest_loop-below m (s ∷ snapshots) = (
  omega (arith, smallest_loop-le (min m s.seq) snapshots),
  smallest_loop-below (min m s.seq) snapshots,
)

-- The first of two finds.
abbrev or_else : Option Entry → Option Entry → Option Entry
or_else none o = o
or_else (some e) o = some e

visible-append :
    (key : Bytes) (seq : ℕ) (xs ys : List Entry)
    → visible key seq (xs ++ ys) ≡ or_else (visible key seq xs) (visible key seq ys)
unfolding visible
visible-append key seq [] ys = refl
visible-append key seq (x ∷ xs) ys = ground (arith, visible-append key seq xs ys)

-- A reader that looks into newer entries first sees the same if it sees the same behind them.
read_behind :
    (key : Bytes) (seq : ℕ) (above xs ys : List Entry)
    → read (visible key seq xs) ≡ read (visible key seq ys)
    → read (visible key seq (above ++ xs)) ≡ read (visible key seq (above ++ ys))
unfolding visible
read_behind key seq [] xs ys h = h
read_behind key seq (x ∷ above) xs ys h = ground (arith, read_behind key seq above xs ys h)

-- A compacted run among newer and older entries.
read-compact_among :
    (floor seq : ℕ) (bottom : Bool) (key : Bytes) (above es below : List Entry)
    → floor ≤ seq
    → IsMerged es
    → (bottom ≡ true → All (IsOther key) below)
    → read (visible key seq (above ++ (compact floor bottom es ++ below)))
      ≡ read (visible key seq (above ++ (es ++ below)))
read-compact_among floor seq bottom key above es below le merged lowest =
    read_behind key seq above (compact floor bottom es ++ below) (es ++ below)
      (split bottom lowest ∙ ap read (sym (visible-append key seq es below)))
  where
    ends : (o : Option Entry) → read (or_else o none) ≡ read o
    ends none = refl
    ends (some e) = refl

    split :
        (b : Bool)
        → (b ≡ true → All (IsOther key) below)
        → read (visible key seq (compact floor b es ++ below))
          ≡ read (or_else (visible key seq es) (visible key seq below))
    split false h =
        ap read (visible-append key seq (compact floor false es) below)
        ∙ ap (λ (o : Option Entry). read (or_else o (visible key seq below)))
            (read-compact floor seq false key es le merged).1
    split true h =
        let empty = visible-nothing key seq below (h refl) in
        let same = (read-compact floor seq true key es le merged).0 in
        ap read (visible-append key seq (compact floor true es) below)
        ∙ rw empty (
            ends (visible key seq (compact floor true es)) ∙ same ∙ sym (ends (visible key seq es)))

-- A compaction at the smallest snapshot sequence number changes no read of a key at any live
-- snapshot, whatever newer entries stand in front of the compacted run and older ones behind it,
-- if the run is in merged order and, at the bottom level, no entry of the key stands behind the
-- run.
pub compact-snapshots :
    (snapshots : List Snapshot) (bottom : Bool) (key : Bytes) (above es below : List Entry)
    → IsMerged es
    → (bottom ≡ true → All (IsOther key) below)
    → All
        (λ (s : Snapshot).
          read (
            visible key s.seq
              (above ++ (compact (smallest_snapshot_seq snapshots) bottom es ++ below)))
          ≡ read (visible key s.seq (above ++ (es ++ below))))
        snapshots
unfolding smallest_snapshot_seq
compact-snapshots snapshots bottom key above es below merged lowest =
    along snapshots (smallest_loop-below max_seq snapshots)
  where
    floor : ℕ
    floor = smallest_loop max_seq snapshots

    along :
        (rest : List Snapshot)
        → All (λ (s : Snapshot). smallest_loop max_seq snapshots ≤ s.seq) rest
        → All
            (λ (s : Snapshot).
              read (visible key s.seq (above ++ (compact floor bottom es ++ below)))
              ≡ read (visible key s.seq (above ++ (es ++ below))))
            rest
    along [] h = tt
    along (s ∷ rest) h =
        (read-compact_among floor s.seq bottom key above es below h.0 merged lowest, along rest h.1)
