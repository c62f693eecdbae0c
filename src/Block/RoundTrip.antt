-- ===== src/Block/RoundTrip.antt =====
-- The reader of src/block.cpp shows the entries that the builder was given.
use bedrockkv.Prelude.{
  ℕ, zero, suc, ◌+◌, ◌<◌, ◌≡◌, refl, ap, sym, ◌∙◌, true, false, not, ◌||◌, List, [], ◌∷◌, ◌++◌,
  append_assoc, append-nil, arith, Bytes, IsU32, All, length, length-append, drop, drop-append,
  ◌==◌, if◌then◌else◌,
}
use bedrockkv.Block.{Builder, shared_size, entry, add, Block, parse_entry, next}
use bedrockkv.Block.Entry.{shared_size-key, parse_entry-entry}

abbrev pub Pair : Type 0
Pair = Bytes × Bytes

-- The builder behind the entries.
abbrev pub add_entries : List Pair → Builder → Builder
add_entries [] b = b
add_entries (e ∷ es) b = add_entries es (add e.0 e.1 b)

-- Sizes fit the fields of an entry.
abbrev pub IsShort : Pair → Type 0
IsShort e = IsU32 (length e.0) × IsU32 (length e.1)

-- The entries that a reader shows, `Next` by `Next`, as long as it is valid.
unfoldable pub shown : ℕ → Block → List Pair
shown zero r = []
shown (suc fuel) r =
    let rest = shown fuel (next r) in if r.is_valid then (r.cur_key, r.cur_value) ∷ rest else []

pub buffer-add :
    (key value : Bytes) (b : Builder)
    → (add key value b).buffer ≡ b.buffer ++ entry (shared_size b key) key value
unfolding add
buffer-add key value b = refl

buffer_front :
    (es : List Pair) (b : Builder)
    → (behind : Bytes) × ((add_entries es b).buffer ≡ b.buffer ++ behind)
buffer_front [] b = ([], sym (append-nil b.buffer))
buffer_front (e ∷ es) b =
    let (behind, p) = buffer_front es (add e.0 e.1 b) in
    let this = entry (shared_size b e.0) e.0 e.1 in
    (
      this ++ behind,
      p
          ∙ ap (λ (l : Bytes). l ++ behind) (buffer-add e.0 e.1 b)
          ∙ append_assoc b.buffer this behind,
    )

-- A reader that stands behind the entries of `b`, over the block of all of them.
abbrev Follows : Builder → List Pair → Bytes → Block → Type 0
Follows b es post r =
    (r.block_data ≡ (add_entries es b).buffer ++ post)
    × (r.restart_array_offset ≡ length (add_entries es b).buffer)
    × (r.cur_key ≡ b.last_key)
    × (r.is_corrupted ≡ false)

-- The next entry that the builder was given is the next that the reader takes.
parse_next :
    (e : Pair) (es : List Pair) (b : Builder) (post : Bytes) (r : Block)
    → IsShort e
    → Follows b (e ∷ es) post r
    → parse_entry (length b.buffer) r ≡ record r {
      is_valid = true;
      cur_key = e.0;
      cur_value = e.1;
      entry_end = length (add e.0 e.1 b).buffer;
    }
parse_next e es b post r short h =
    let sh = shared_size b e.0 in
    let this = entry sh e.0 e.1 in
    let (whole, shorter, fits) = shared_size-key b e.0 in
    let (behind, p) = buffer_front es (add e.0 e.1 b) in
    let grown : (add e.0 e.1 b).buffer ≡ b.buffer ++ this = unfold add in refl in
    let layout : r.block_data ≡ b.buffer ++ (this ++ (behind ++ post)) =
      h.0
      ∙ ap (λ (l : Bytes). l ++ post) (p ∙ ap (λ (l : Bytes). l ++ behind) grown)
      ∙ append_assoc (b.buffer ++ this) behind post
      ∙ append_assoc b.buffer this (behind ++ post) in
    let here : drop (length b.buffer) r.block_data ≡ this ++ (behind ++ post) =
      ap (drop (length b.buffer)) layout
      ∙ drop-append (length b.buffer) b.buffer (this ++ (behind ++ post)) refl in
    let size : length (add e.0 e.1 b).buffer ≡ length b.buffer + length this =
      ap length grown ∙ length-append b.buffer this in
    parse_entry-entry sh e.0 e.1 (behind ++ post) fits short.0 short.1 r (length b.buffer)
      b.last_key here h.2 shorter whole
      (omega (arith, h.1, ap length p, length-append (add e.0 e.1 b).buffer behind, size))
    ∙ ap (λ (n : ℕ). record r { is_valid = true; cur_key = e.0; cur_value = e.1; entry_end = n })
        (sym size)

parse_end :
    (b : Builder) (post : Bytes) (r : Block)
    → Follows b [] post r
    → parse_entry (length b.buffer) r ≡ record r { is_valid = false }
unfolding parse_entry
parse_end b post r h =
    let c : (length b.buffer == r.restart_array_offset) ≡ true = ground (arith, h.1) in rw c refl

next_good :
    (r : Block) → r.is_corrupted ≡ false → r.is_valid ≡ true → next r ≡ parse_entry r.entry_end r
unfolding next
next_good r c v =
    let going : (r.is_corrupted || not r.is_valid) ≡ false = ground (arith, c, v) in rw going refl

-- From behind the entries of `b` on, the reader shows the entries that were added to it.
pub shown-add_entries :
    (es : List Pair) (b : Builder) (post : Bytes) (r : Block) (fuel : ℕ)
    → All IsShort es
    → Follows b es post r
    → length es < fuel
    → shown fuel (parse_entry (length b.buffer) r) ≡ es
unfolding shown
shown-add_entries es b post r zero short h enough = absurd (omega arith)
shown-add_entries [] b post r (suc fuel) short h enough = rw (parse_end b post r h) refl
shown-add_entries (e ∷ es) b post r (suc fuel) short h enough =
    let b' = add e.0 e.1 b in
    let r' : Block = record r {
      is_valid = true;
      cur_key = e.0;
      cur_value = e.1;
      entry_end = length b'.buffer;
    } in
    let rest =
      shown-add_entries es b' post r' fuel short.1 (h.0, h.1, (unfold add in refl), h.3)
        (omega (arith, enough)) in
    let follows : next r' ≡ parse_entry (length b'.buffer) r' = next_good r' h.3 refl in
    rw (parse_next e es b post r short.0 h)
      (ap (λ (l : List Pair). e ∷ l) (ap (shown fuel) follows ∙ rest))
