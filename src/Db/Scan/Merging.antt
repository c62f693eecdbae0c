-- ===== src/Db/Scan/Merging.antt =====
-- The merging iterator, include/bedrockkv/iterator.h: it shows the entries of its children, in
-- order.
use bedrockkv.Prelude.{
  ℕ, zero, suc, ◌+◌, ◌≤◌, ◌≡◌, refl, sym, subst, Bool, true, ◌⊎◌, inl, inr, none, some, List, [],
  ◌∷◌, arith, All, if◌then◌else◌,
}
use bedrockkv.Db.Compaction.{Entry}
use bedrockkv.Db.Scan.{Current, find_smallest, advance, merge_continue, merged_loop, total, merged}
use bedrockkv.Db.Scan.Choice.{
  IsNotBefore, IsSorted, IsNotBefore-trans, IsAt, IsHeadNotBefore, IsEmpty, IsFound,
  find_smallest-IsFound,
}

-- How many entries pass a test.
unfoldable pub count : (Entry → Bool) → List Entry → ℕ
count p [] = 0
count p (e ∷ es) = (if p e then 1 else 0) + count p es

unfoldable pub count_all : (Entry → Bool) → List (List Entry) → ℕ
unfolding count
count_all p [] = 0
count_all p (c ∷ children) = count p c + count_all p children

count-advance :
    (p : Entry → Bool) (k : ℕ) (x : Entry) (children : List (List Entry))
    → IsAt k x children
    → count_all p children ≡ (if p x then 1 else 0) + count_all p (advance k children)
unfolding count_all advance
count-advance p k x [] at = absurd at
count-advance p zero x ([] ∷ children) at = absurd at
count-advance p zero x ((e ∷ es) ∷ children) at = rw (sym at) (omega arith)
count-advance p (suc k) x (c ∷ children) at = omega (arith, count-advance p k x children at)

total-count : (children : List (List Entry)) → total children ≡ count_all (λ e. true) children
unfolding count_all count
total-count [] = refl
total-count ([] ∷ children) = omega (arith, total-count children)
total-count ((e ∷ es) ∷ children) = omega (arith, total-count (es ∷ children))

total-advance :
    (k : ℕ) (x : Entry) (children : List (List Entry))
    → IsAt k x children
    → total children ≡ suc (total (advance k children))
total-advance k x children at = omega (
  arith,
  total-count children,
  total-count (advance k children),
  count-advance (λ e. true) k x children at,
)

advance-All :
    (P : Entry → Type 0) (k : ℕ) (children : List (List Entry))
    → All (All P) children
    → All (All P) (advance k children)
unfolding advance
advance-All P k [] h = tt
advance-All P zero ([] ∷ children) h = h
advance-All P zero ((e ∷ es) ∷ children) h = (h.0.1, h.1)
advance-All P (suc k) (c ∷ children) h = (h.0, advance-All P k children h.1)

advance-All-IsSorted :
    (k : ℕ) (children : List (List Entry))
    → All IsSorted children
    → All IsSorted (advance k children)
unfolding advance
advance-All-IsSorted k [] h = tt
advance-All-IsSorted zero ([] ∷ children) h = h
advance-All-IsSorted zero ((e ∷ es) ∷ children) h = (h.0.1, h.1)
advance-All-IsSorted (suc k) (c ∷ children) h = (h.0, advance-All-IsSorted k children h.1)

count_empty :
    (p : Entry → Bool) (children : List (List Entry))
    → All IsEmpty children
    → count_all p children ≡ 0
unfolding count_all count
count_empty p [] h = refl
count_empty p (c ∷ children) h = rw h.0 (omega (arith, count_empty p children h.1))

at_holds :
    (P : Entry → Type 0) (k : ℕ) (x : Entry) (children : List (List Entry))
    → All (All P) children
    → IsAt k x children
    → P x
at_holds P k x [] h at = absurd at
at_holds P zero x ([] ∷ children) h at = absurd at
at_holds P zero x ((e ∷ es) ∷ children) h at = subst P at h.0.0
at_holds P (suc k) x (c ∷ children) h at = at_holds P k x children h.1 at

-- The heads are not before `x`, so nothing in sorted children is.
behind_heads :
    (x : Entry) (children : List (List Entry))
    → All (IsHeadNotBefore x) children
    → All IsSorted children
    → All (All (IsNotBefore x)) children
behind_heads x [] h o = tt
behind_heads x ([] ∷ children) h o = (tt, behind_heads x children h.1 o.1)
behind_heads x ((e ∷ es) ∷ children) h o = ((h.0, along es o.0.0), behind_heads x children h.1 o.1)
  where
    along : (es : List Entry) → All (IsNotBefore e) es → All (IsNotBefore x) es
    along [] k = tt
    along (y ∷ ys) k = (IsNotBefore-trans x e y h.0 k.0, along ys k.1)

-- The round that the loop makes: nothing is left, or the head of a child is taken.
abbrev IsRound : List (List Entry) → Current → Type 0
IsRound children none = All IsEmpty children
IsRound children (some c) = All (IsHeadNotBefore c.1) children × IsAt c.0 c.1 children

round : (children : List (List Entry)) → IsRound children (find_smallest 0 none children)
round children = read_off (find_smallest 0 none children) (find_smallest-IsFound 0 none children)
  where
    read_off : (r : Current) → IsFound 0 none children r → IsRound children r
    read_off none h = h.1
    read_off (some c) h = (h.0, placed h.2)
      where
        placed :
            (none ≡ some c) ⊎ ((k : ℕ) × (c.0 ≡ 0 + k) × IsAt k c.1 children)
            → IsAt c.0 c.1 children
        placed (inl p) = absurd (ground (arith, p))
        placed (inr (k, p, at)) = subst (λ n. IsAt n c.1 children) (omega (arith, p)) at

empty-All :
    (P : Entry → Type 0) (children : List (List Entry))
    → All IsEmpty children
    → All (All P) children
empty-All P [] h = tt
empty-All P (c ∷ children) h = (subst (All P) (sym h.0) tt, empty-All P children h.1)

advance-All-back :
    (P : Entry → Type 0) (k : ℕ) (x : Entry) (children : List (List Entry))
    → IsAt k x children
    → P x
    → All (All P) (advance k children)
    → All (All P) children
unfolding advance
advance-All-back P k x [] at px h = tt
advance-All-back P zero x ([] ∷ children) at px h = absurd at
advance-All-back P zero x ((e ∷ es) ∷ children) at px h = ((subst P (sym at) px, h.0), h.1)
advance-All-back P (suc k) x (c ∷ children) at px h =
    (h.0, advance-All-back P k x children at px h.1)

abbrev pub IsMergeOf : List (List Entry) → List Entry → Type 1
IsMergeOf children es =
    ((p : Entry → Bool) → count p es ≡ count_all p children)
    × (All IsSorted children → IsSorted es)
    × ((P : Entry → Type 0) → All (All P) children → All P es)
    × ((P : Entry → Type 0) → All P es → All (All P) children)

merged_round :
    (fuel : ℕ) (children : List (List Entry)) (r : Current)
    → IsRound children r
    → total children ≤ suc fuel
    → ((k : ℕ) (x : Entry)
        → IsAt k x children
        → IsMergeOf (advance k children) (merged_loop fuel (advance k children)))
    → IsMergeOf children (merge_continue (λ i. merged_loop fuel (advance i children)) r)
unfolding merge_continue count
merged_round fuel children none h enough rest =
    ((λ p. sym (count_empty p children h)), (λ o. tt), (λ P o. tt), (λ P o. empty-All P children h))
merged_round fuel children (some (k, x)) h enough rest =
    let (counts, sorted, holds, held) = rest k x h.1 in
    (
      (λ p. omega (arith, counts p, count-advance p k x children h.1)),
      (λ o. (
        holds (IsNotBefore x)
            (advance-All (IsNotBefore x) k children (behind_heads x children h.0 o)),
        sorted (advance-All-IsSorted k children o),
      )),
      (λ P o. (at_holds P k x children o h.1, holds P (advance-All P k children o))),
      (λ P o. advance-All-back P k x children h.1 o.0 (held P o.1)),
    )

All-passed : (children : List (List Entry)) → total children ≤ 0 → All IsEmpty children
All-passed [] h = tt
All-passed ([] ∷ children) h = (refl, All-passed children h)
All-passed ((e ∷ es) ∷ children) h = absurd (omega (arith, h))

merged_loop-IsMergeOf :
    (fuel : ℕ) (children : List (List Entry))
    → total children ≤ fuel
    → IsMergeOf children (merged_loop fuel children)
unfolding merged_loop count
merged_loop-IsMergeOf zero children enough = (
  (λ p. sym (count_empty p children (All-passed children enough))),
  (λ o. tt),
  (λ P o. tt),
  (λ P o. empty-All P children (All-passed children enough)),
)
merged_loop-IsMergeOf (suc fuel) children enough =
    merged_round fuel children (find_smallest 0 none children) (round children) enough (λ k x at.
      merged_loop-IsMergeOf fuel (advance k children)
        (omega (arith, enough, total-advance k x children at)))

pub merged-IsMergeOf : (children : List (List Entry)) → IsMergeOf children (merged children)
unfolding merged
merged-IsMergeOf children = merged_loop-IsMergeOf (suc (total children)) children (omega arith)

-- The merging iterator shows every entry of its children as often as they hold it, and in order
-- if they are in order.
pub merged-count :
    (children : List (List Entry))
    → ((p : Entry → Bool) → count p (merged children) ≡ count_all p children)
      × (All IsSorted children → IsSorted (merged children))
merged-count children = let m = merged-IsMergeOf children in (m.0, m.1)
