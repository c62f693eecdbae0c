-- ===== src/Block/Opening.antt =====
-- The constructor of `Block` (src/block.cpp) accepts what `Finish` wrote.
use bedrockkv.Prelude.{
  ℕ, suc, ◌+◌, ◌-◌, ◌*◌, ◌%◌, ◌^◌, ◌≤◌, ◌<◌, ◌≡◌, refl, ap, sym, ◌∙◌, subst, Bool, true, false,
  ◌||◌, List, [], ◌∷◌, ◌++◌, append_assoc, append-nil, arith, Bytes, All, All-append, length,
  length-append, drop, drop-append, drop-drop, ltb, leb, ◌==◌, if◌then◌else◌,
}
use bedrockkv.Encoding.{fixed32, get_fixed32}
use bedrockkv.Encoding.RoundTrip.{get_fixed32-fixed32, length-fixed32}
use bedrockkv.Block.{
  Builder, new_builder, shared_size, entry, add, restart_array, finish, no_block, offsets_ok,
  open_block, seek_to_first,
}
use bedrockkv.Block.Entry.{shared_size-key, length-entry}
use bedrockkv.Block.RoundTrip.{Pair, add_entries, IsShort, buffer-add, shown, shown-add_entries}

-- The restart points lie within the buffer, and there are not more of them than entries.
abbrev IsSound : Builder → Type 0
IsSound b =
    All (λ (r : ℕ). r ≤ length b.buffer) b.restarts
    × (1 ≤ length b.restarts)
    × (12 * length b.restarts ≤ length b.buffer + 12)

All-raise : (m n : ℕ) (rs : List ℕ) → m < n → All (λ (r : ℕ). r ≤ m) rs → All (λ (r : ℕ). r < n) rs
All-raise m n [] lt h = tt
All-raise m n (r ∷ rs) lt h = (omega (arith, lt, h.0), All-raise m n rs lt h.1)

All-soften : (n : ℕ) (rs : List ℕ) → All (λ (r : ℕ). r < n) rs → All (λ (r : ℕ). r ≤ n) rs
All-soften n [] h = tt
All-soften n (r ∷ rs) h = (omega (arith, h.0), All-soften n rs h.1)

abbrev IsWithin : ℕ → List ℕ → Type 0
IsWithin size rs = All (λ (r : ℕ). r < size) rs × (1 ≤ length rs) × (12 * length rs ≤ size + 12)

push-IsWithin :
    (c : Bool) (old size p : ℕ) (rs : List ℕ)
    → All (λ (r : ℕ). r < size) rs
    → p < size
    → 1 ≤ length rs
    → 12 * length rs ≤ old + 12
    → old + 12 ≤ size
    → IsWithin size (if c then rs else rs ++ p ∷ [])
push-IsWithin true old size p rs h lt some_restart few grown =
    (h, some_restart, omega (arith, few, grown))
push-IsWithin false old size p rs h lt some_restart few grown = (
  All-append (λ (r : ℕ). r < size) rs (p ∷ []) (lt, tt) h,
  omega (arith, length-append rs (p ∷ [])),
  omega (arith, few, grown, length-append rs (p ∷ [])),
)

restarts-add :
    (key value : Bytes) (b : Builder)
    → (add key value b).restarts ≡ (
        if ltb b.counter b.restart_interval
        then b.restarts
        else b.restarts ++ (length b.buffer % 2 ^ 32) ∷ [])
unfolding add
restarts-add key value b = refl

add-restarts :
    (key value : Bytes) (b : Builder)
    → IsShort (key, value)
    → IsSound b
    → IsWithin (length (add key value b).buffer) (add key value b).restarts
add-restarts key value b short h =
    let size = length (add key value b).buffer in
    let grown : length b.buffer + 12 ≤ size = omega (
      arith,
      ap length (buffer-add key value b),
      length-append b.buffer (entry (shared_size b key) key value),
      length-entry (shared_size b key) key value [] (shared_size-key b key).2 short.0 short.1,
    ) in
    subst (IsWithin size) (sym (restarts-add key value b)) (
      push-IsWithin (ltb b.counter b.restart_interval) (length b.buffer) size
        (length b.buffer % 2 ^ 32) b.restarts
        (All-raise (length b.buffer) size b.restarts (omega (arith, grown)) h.0)
        (omega (arith, grown)) h.1 h.2 grown)

add_entries-restarts :
    (es : List Pair) (e : Pair) (b : Builder)
    → All IsShort (e ∷ es)
    → IsSound b
    → All (λ (r : ℕ). r < length (add_entries (e ∷ es) b).buffer) (add_entries (e ∷ es) b).restarts
      × (1 ≤ length (add_entries (e ∷ es) b).restarts)
      × (12 * length (add_entries (e ∷ es) b).restarts
          ≤ length (add_entries (e ∷ es) b).buffer + 12)
add_entries-restarts [] e b short h = add-restarts e.0 e.1 b short.0 h
add_entries-restarts (d ∷ es) e b short h =
    let (before, some_restart, few) = add-restarts e.0 e.1 b short.0 h in
    add_entries-restarts es d (add e.0 e.1 b) short.1 (
      All-soften (length (add e.0 e.1 b).buffer) (add e.0 e.1 b).restarts before,
      some_restart,
      few,
    )

length-restart_array : (rs : List ℕ) → length (restart_array rs) ≡ 4 * length rs
unfolding restart_array
length-restart_array [] = refl
length-restart_array (r ∷ rs) =
    omega (
      arith,
      length-append (fixed32 r) (restart_array rs),
      length-fixed32 r,
      length-restart_array rs,
    )

offsets_ok-restarts :
    (rs : List ℕ) (tail : Bytes) (limit : ℕ)
    → limit < 2 ^ 32
    → All (λ (r : ℕ). r < limit) rs
    → offsets_ok (length rs) (restart_array rs ++ tail) limit ≡ true
unfolding offsets_ok restart_array
offsets_ok-restarts [] tail limit small h = refl
offsets_ok-restarts (r ∷ rs) tail limit small h =
    let shape = append_assoc (fixed32 r) (restart_array rs) tail in
    let field : get_fixed32 ((fixed32 r ++ restart_array rs) ++ tail) ≡ r =
      ap get_fixed32 shape
      ∙ get_fixed32-fixed32 r (restart_array rs ++ tail) (omega (arith, h.0, small)) in
    let rest : drop 4 ((fixed32 r ++ restart_array rs) ++ tail) ≡ restart_array rs ++ tail =
      ap (drop 4) shape
      ∙ drop-append 4 (fixed32 r) (restart_array rs ++ tail) (sym (length-fixed32 r)) in
    let before : leb limit r ≡ false = ground (arith, h.0) in
    rw (field, rest, before) (offsets_ok-restarts rs tail limit small h.1)

module _ (b : Builder) (small : length b.buffer < 2 ^ 32)
    (before : All (λ (r : ℕ). r < length b.buffer) b.restarts)
    (some_restart : 1 ≤ length b.restarts)
    (few : 12 * length b.restarts ≤ length b.buffer + 12) where
  abbrev array : Bytes
  array = restart_array b.restarts

  abbrev count : Bytes
  count = fixed32 (length b.restarts % 2 ^ 32)

  size : length (finish b) ≡ length b.buffer + (4 * length b.restarts + 4)
  unfolding finish
  size = omega (
    arith,
    length-append b.buffer (array ++ count),
    length-append array count,
    length-restart_array b.restarts,
    length-fixed32 (length b.restarts % 2 ^ 32),
  )

  at_count : get_fixed32 (drop (length (finish b) - 4) (finish b)) ≡ length b.restarts
  unfolding finish
  at_count =
      ap (λ (n : ℕ). get_fixed32 (drop n (finish b))) (omega (arith, size))
      ∙ ap get_fixed32 (
          sym (drop-drop (4 * length b.restarts) (length b.buffer) (finish b))
          ∙ ap (drop (4 * length b.restarts))
              (drop-append (length b.buffer) b.buffer (array ++ count) refl)
          ∙ drop-append (4 * length b.restarts) array count (sym (length-restart_array b.restarts))
          ∙ sym (append-nil count))
      ∙ get_fixed32-fixed32 (length b.restarts % 2 ^ 32) [] (omega arith)
      ∙ omega (arith, few, small)

  -- What `Finish` wrote is opened without a complaint.
  pub open_block-finish :
      open_block (finish b) ≡ no_block (finish b) (length b.buffer) (length b.restarts) false
  unfolding open_block
  open_block-finish =
      let n = length b.restarts in
      let c1 : ltb (length (finish b)) 4 ≡ false = ground (arith, size) in
      let c2 : (ltb (length (finish b)) ((n + 1) * 4) || n == 0) ≡ false =
        ground (arith, size, some_restart) in
      let place : length (finish b) - (n + 1) * 4 ≡ length b.buffer = omega (arith, size) in
      let c3 : offsets_ok n (drop (length b.buffer) (finish b)) (length b.buffer) ≡ true =
        unfold finish in
        (ap (λ (l : Bytes). offsets_ok n l (length b.buffer))
            (drop-append (length b.buffer) b.buffer (array ++ count) refl)
          ∙ offsets_ok-restarts b.restarts count (length b.buffer) small before) in
      rw (at_count, c1, c2, place, c3) refl

-- SeekToFirst and Next on a finished block show exactly the entries that the builder was given,
-- in their order, prefixes restored, when keys and values fit their fields and the entries are
-- below 4 GiB.
pub shown-finish :
    (interval : ℕ) (e : Pair) (es : List Pair)
    → All IsShort (e ∷ es)
    → length (add_entries (e ∷ es) (new_builder interval)).buffer < 2 ^ 32
    → shown
        (suc (length (e ∷ es)))
        (seek_to_first (open_block (finish (add_entries (e ∷ es) (new_builder interval)))))
      ≡ e ∷ es
unfolding seek_to_first
shown-finish interval e es short small =
    let b = add_entries (e ∷ es) (new_builder interval) in
    let (before, some_restart, few) =
      add_entries-restarts es e (new_builder interval) short
        ((omega arith, tt), omega arith, omega arith) in
    rw (open_block-finish b small before some_restart few) (
      shown-add_entries (e ∷ es) (new_builder interval)
        (restart_array b.restarts ++ fixed32 (length b.restarts % 2 ^ 32))
        (no_block (finish b) (length b.buffer) (length b.restarts) false) (suc (length (e ∷ es)))
        short ((unfold finish in refl), refl, refl, refl) (omega arith))
