-- ===== src/Block/Entry.antt =====
-- One entry of a block, src/block.cpp: what `Add` writes and how `ParseEntry` reads it.
use bedrockkv.Prelude.{
  ℕ, ◌+◌, ◌-◌, ◌%◌, ◌^◌, ◌≤◌, ◌≡◌, refl, ap, sym, ◌∙◌, true, false, ◌||◌, inl, inr, Bool-cases, [],
  ◌∷◌, ◌++◌, append_assoc, arith, Bytes, IsU32, length, length-append, take, drop, take-append,
  drop-append, drop-drop, length-drop, ltb, ◌==◌,
}
use bedrockkv.Encoding.{fixed32, get_fixed32}
use bedrockkv.Encoding.RoundTrip.{get_fixed32-fixed32, length-fixed32}
use bedrockkv.Block.{Builder, shared_prefix, shared_size, entry, Block, parse_entry}

-- The shared bytes and the rest of the key make up the key.
shared_prefix-key :
    (last key : Bytes)
    → (take (shared_prefix last key) last ++ drop (shared_prefix last key) key ≡ key)
      × (shared_prefix last key ≤ length last)
      × (shared_prefix last key ≤ length key)
unfolding shared_prefix take drop
shared_prefix-key [] key = (refl, omega arith, omega arith)
shared_prefix-key (a ∷ last) [] = (refl, omega arith, omega arith)
shared_prefix-key (a ∷ last) (k ∷ ks) =
    let (same, short, fits) = shared_prefix-key last ks in
    elim (Bool-cases (a == k)) [
      | inl eq ↦
          let p : a ≡ k = ground (arith, eq) in
          rw eq (cons_cong p same, omega (arith, short), omega (arith, fits))
      | inr ne ↦ rw ne (refl, omega arith, omega arith)
    ]
  where
    cons_cong : {x y : ℕ} {l m : Bytes} → x ≡ y → l ≡ m → (x ∷ l) ≡ (y ∷ m)
    cons_cong p q = cc

pub shared_size-key :
    (b : Builder) (key : Bytes)
    → (take (shared_size b key) b.last_key ++ drop (shared_size b key) key ≡ key)
      × (shared_size b key ≤ length b.last_key)
      × (shared_size b key ≤ length key)
unfolding shared_size
shared_size-key b key = elim (Bool-cases (ltb b.counter b.restart_interval)) [
  | inl shares ↦ rw shares (shared_prefix-key b.last_key key)
  | inr restarts ↦ rw restarts (unfold take drop in refl, omega arith, omega arith)
]

module _ (shared : ℕ) (key value post : Bytes) (fits : shared ≤ length key)
    (short_key : IsU32 (length key)) (short_value : IsU32 (length value)) where
  abbrev front : Bytes
  front = fixed32 (shared % 2 ^ 32)

  abbrev middle : Bytes
  middle = fixed32 ((length key - shared) % 2 ^ 32)

  abbrev last : Bytes
  last = fixed32 (length value % 2 ^ 32)

  abbrev body : Bytes
  body = drop shared key ++ (value ++ post)

  entry-shape : entry shared key value ++ post ≡ front ++ (middle ++ (last ++ body))
  unfolding entry
  entry-shape =
      append_assoc front (middle ++ (last ++ (drop shared key ++ value))) post
      ∙ ap (λ (l : Bytes). front ++ l)
          (append_assoc middle (last ++ (drop shared key ++ value)) post
            ∙ ap (λ (l : Bytes). middle ++ l)
                (append_assoc last (drop shared key ++ value) post
                  ∙ ap (λ (l : Bytes). last ++ l) (append_assoc (drop shared key) value post)))

  drop4 : drop 4 (entry shared key value ++ post) ≡ middle ++ (last ++ body)
  drop4 =
      ap (drop 4) entry-shape
      ∙ drop-append 4 front (middle ++ (last ++ body)) (sym (length-fixed32 (shared % 2 ^ 32)))

  drop8 : drop 8 (entry shared key value ++ post) ≡ last ++ body
  drop8 =
      sym (drop-drop 4 4 (entry shared key value ++ post))
      ∙ ap (drop 4) drop4
      ∙ drop-append 4 middle (last ++ body) (sym (length-fixed32 ((length key - shared) % 2 ^ 32)))

  drop12 : drop 12 (entry shared key value ++ post) ≡ body
  drop12 =
      sym (drop-drop 4 8 (entry shared key value ++ post))
      ∙ ap (drop 4) drop8
      ∙ drop-append 4 last body (sym (length-fixed32 (length value % 2 ^ 32)))

  shared_field : get_fixed32 (entry shared key value ++ post) ≡ shared
  shared_field =
      ap get_fixed32 entry-shape
      ∙ get_fixed32-fixed32 (shared % 2 ^ 32) (middle ++ (last ++ body)) (omega arith)
      ∙ omega (arith, fits, short_key)

  key_field : get_fixed32 (drop 4 (entry shared key value ++ post)) ≡ length key - shared
  key_field =
      ap get_fixed32 drop4
      ∙ get_fixed32-fixed32 ((length key - shared) % 2 ^ 32) (last ++ body) (omega arith)
      ∙ omega (arith, short_key)

  value_field : get_fixed32 (drop 8 (entry shared key value ++ post)) ≡ length value
  value_field =
      ap get_fixed32 drop8
      ∙ get_fixed32-fixed32 (length value % 2 ^ 32) body (omega arith)
      ∙ omega (arith, short_value)

  pub length-entry : length (entry shared key value) ≡ 12 + (length key - shared) + length value
  unfolding entry
  length-entry = omega (
    arith,
    length-append front (middle ++ (last ++ (drop shared key ++ value))),
    length-append middle (last ++ (drop shared key ++ value)),
    length-append last (drop shared key ++ value),
    length-append (drop shared key) value,
    length-drop shared key,
    length-fixed32 (shared % 2 ^ 32),
    length-fixed32 ((length key - shared) % 2 ^ 32),
    length-fixed32 (length value % 2 ^ 32),
  )

  taken_key :
      take (length key - shared) (drop 12 (entry shared key value ++ post)) ≡ drop shared key
  taken_key =
      ap (take (length key - shared)) drop12
      ∙ take-append (length key - shared) (drop shared key) (value ++ post)
          (sym (length-drop shared key))

  taken_value :
      take (length value) (drop (12 + (length key - shared)) (entry shared key value ++ post))
      ≡ value
  taken_value =
      ap (take (length value)) (
        sym (drop-drop (length key - shared) 12 (entry shared key value ++ post))
        ∙ ap (drop (length key - shared)) drop12
        ∙ drop-append (length key - shared) (drop shared key) (value ++ post)
            (sym (length-drop shared key)))
      ∙ take-append (length value) value post refl

  -- At an entry the reader takes the key and the value, and stands behind them.
  pub parse_entry-entry :
      (r : Block) (offset : ℕ) (previous : Bytes)
      → drop offset r.block_data ≡ entry shared key value ++ post
      → r.cur_key ≡ previous
      → shared ≤ length previous
      → take shared previous ++ drop shared key ≡ key
      → offset + length (entry shared key value) ≤ r.restart_array_offset
      → parse_entry offset r ≡ record r {
        is_valid = true;
        cur_key = key;
        cur_value = value;
        entry_end = offset + length (entry shared key value);
      }
  unfolding parse_entry
  parse_entry-entry r offset previous here p shorter whole room =
      let n : ℕ = length key - shared in
      let limit = r.restart_array_offset in
      let c1 : (offset == limit) ≡ false = ground (arith, room, length-entry) in
      let c2 : (ltb limit offset || ltb limit (offset + 12)) ≡ false =
        ground (arith, room, length-entry) in
      let c3 : ltb (length previous) shared ≡ false = ground (arith, shorter) in
      let c4 : ltb (limit - offset - 12) (n + length value) ≡ false =
        ground (arith, room, length-entry) in
      let end : offset + 12 + n + length value ≡ offset + length (entry shared key value) =
        omega (arith, length-entry) in
      rw
        (
          here, shared_field, key_field, value_field, p, c1, c2, c3, c4, taken_key, taken_value,
          whole, end,
        )
        refl
