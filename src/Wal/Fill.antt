-- ===== src/Wal/Fill.antt =====
-- The loop of `ReadPhysicalRecord` that reads one block, src/log.cpp, on the answers of `::read`.
use bedrockkv.Prelude.{
  ℕ, zero, suc, ◌+◌, ◌-◌, ◌≤◌, ◌≡◌, ◌≢◌, refl, ap, sym, ◌∙◌, true, false, Option, none, some, List,
  [], ◌∷◌, ◌++◌, append-nil, append_assoc, min, arith, Bytes, length, take, drop, ltb, length-drop,
  drop-drop,
}
use bedrockkv.Wal.{block_size}
use bedrockkv.Wal.Reader.{Fill, filled, fill_failed, IsFaithful}

-- One answer of `::read`: up to so many bytes and one more, `EINTR`, or another error.
pub data BlockAnswer : Type 0 where
  got : ℕ → BlockAnswer
  read_interrupted : BlockAnswer
  read_refused : BlockAnswer

-- The bytes that an answer brings: no more than asked for, and no more than there are.
abbrev pub delivered : ℕ → ℕ → Bytes → ℕ
delivered k room file = min (suc k) (min room (length file))

-- `room` is `kBlockSize - n`; a loop whose answers are used up waits.
unfoldable pub fill_loop : List BlockAnswer → ℕ → Bytes → Bytes → Option Fill
fill_loop answers zero block file = some (filled block false file)
fill_loop [] (suc room) block file = none
fill_loop (read_interrupted ∷ answers) (suc room) block file =
    fill_loop answers (suc room) block file
fill_loop (read_refused ∷ answers) (suc room) block file = some fill_failed
fill_loop (got k ∷ answers) (suc room) block [] = some (filled block true [])
fill_loop (got k ∷ answers) (suc room) block (b ∷ file) =
    let c = delivered k (suc room) (b ∷ file) in
    fill_loop answers (suc room - c) (block ++ take c (b ∷ file)) (drop c (b ∷ file))

unfoldable pub fill_block : List BlockAnswer → Bytes → Option Fill
unfolding fill_loop
fill_block answers file = fill_loop answers block_size [] file

take-nil : (m : ℕ) → take {A = ℕ} m [] ≡ []
unfolding take
take-nil zero = refl
take-nil (suc m) = refl

take_split : (c n : ℕ) (xs : Bytes) → c ≤ n → take c xs ++ take (n - c) (drop c xs) ≡ take n xs
unfolding take drop
take_split zero n xs h = ap (λ (m : ℕ). take m xs) (omega arith)
take_split (suc c) zero xs h = absurd (omega arith)
take_split (suc c) (suc n) [] h = take-nil (suc n - suc c)
take_split (suc c) (suc n) (x ∷ xs) h =
    let e : suc n - suc c ≡ n - c = omega arith in
    rw e (ap (λ (l : Bytes). x ∷ l) (take_split c n xs (omega arith)))

-- The block, whether the file ended, and what it still holds.
abbrev pub wanted : ℕ → Bytes → Bytes → Fill
wanted room block file = filled (block ++ take room file) (ltb (length file) room) (drop room file)

fill_loop-wanted :
    (answers : List BlockAnswer) (room : ℕ) (block file : Bytes) (f : Fill)
    → fill_loop answers room block file ≡ some f
    → f ≢ fill_failed
    → some f ≡ some (wanted room block file)
unfolding fill_loop take drop
fill_loop-wanted answers zero block file f h ok =
    let none_wanted : ltb (length file) 0 ≡ false = ground arith in
    let same : some (filled block false file) ≡ some (wanted 0 block file) =
      rw (append-nil block, none_wanted) refl in
    sym h ∙ same
fill_loop-wanted [] (suc room) block file f h ok = absurd (ground (arith, h))
fill_loop-wanted (read_interrupted ∷ answers) (suc room) block file f h ok =
    fill_loop-wanted answers (suc room) block file f h ok
fill_loop-wanted (read_refused ∷ answers) (suc room) block file f h ok =
    absurd (ground (arith, h, ok))
fill_loop-wanted (got k ∷ answers) (suc room) block [] f h ok =
    let same : some (filled block true []) ≡ some (wanted (suc room) block []) =
      let at_end : ltb 0 (suc room) ≡ true = ground arith in rw (append-nil block, at_end) refl in
    sym h ∙ same
fill_loop-wanted (got k ∷ answers) (suc room) block (b ∷ file) f h ok =
    let xs : Bytes = b ∷ file in
    let c : ℕ = delivered k (suc room) xs in
    let back : c + (suc room - c) ≡ suc room = omega arith in
    let rest : drop (suc room - c) (drop c xs) ≡ drop (suc room) xs =
      drop-drop (suc room - c) c xs ∙ ap (λ (n : ℕ). drop n xs) back in
    let front : (block ++ take c xs) ++ take (suc room - c) (drop c xs)
        ≡ block ++ take (suc room) xs =
      append_assoc block (take c xs) (take (suc room - c) (drop c xs))
      ∙ ap (◌++◌ block) (take_split c (suc room) xs (omega arith)) in
    let ended : ltb (length (drop c xs)) (suc room - c) ≡ ltb (length xs) (suc room) =
      ground (arith, length-drop c xs) in
    let same : some (wanted (suc room - c) (block ++ take c xs) (drop c xs))
        ≡ some (wanted (suc room) block xs) =
      rw (front, ended, rest) refl in
    fill_loop-wanted answers (suc room - c) (block ++ take c xs) (drop c xs) f h ok ∙ same

-- A fill that the loop gives on every file, whatever the answers, without an error is faithful.
pub fill_block-IsFaithful :
    (fill : Bytes → Fill) (answers : Bytes → List BlockAnswer)
    → ((file : Bytes) → fill_block (answers file) file ≡ some (fill file))
    → ((file : Bytes) → fill file ≢ fill_failed)
    → IsFaithful fill
unfolding fill_block
fill_block-IsFaithful fill answers runs ok file =
    ground
      (arith, fill_loop-wanted (answers file) block_size [] file (fill file) (runs file) (ok file))
