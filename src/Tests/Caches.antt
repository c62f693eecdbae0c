-- ===== src/Tests/Caches.antt =====
-- The Bloom filter and the cache at concrete inputs.
use bedrockkv.Prelude.{ℕ, ◌*◌, ◌/◌, ◌≤◌, ◌≡◌, refl, Bool, true, All, [], ◌∷◌, some, arith, ◌==◌}
use bedrockkv.Prelude.Text.{codes}
use bedrockkv.Bloom.{build_filter, key_may_match}
use bedrockkv.Bloom.Membership.{build_filter-matches}
use bedrockkv.Lru.{Shard, get, put}
use bedrockkv.Lru.Weight.{Counts, put-Counts, get-put, put-flushes}

-- `static_cast<int>(n * 0.69)` of the numbers in use.
abbrev scale : ℕ → ℕ
scale n = n * 69 / 100

build_filter-matches_example :
    All
      (λ key. key_may_match (build_filter scale (codes "a" ∷ codes "b" ∷ []) 10) key ≡ true)
      (codes "a" ∷ codes "b" ∷ [])
build_filter-matches_example = build_filter-matches scale (codes "a" ∷ codes "b" ∷ []) 10

-- The value is its own weight.
abbrev weigh : ℕ → ℕ
weigh v = v

abbrev eq : ℕ → ℕ → Bool
eq a b = a == b

abbrev two : Shard ℕ ℕ
two = record { lru = (1, 3) ∷ (2, 4) ∷ []; weight = 7 }

put-Counts_example :
    Counts eq weigh (put eq weigh 20 10 two 5 6) × ((put eq weigh 20 10 two 5 6).weight ≤ 10)
put-Counts_example = put-Counts eq weigh 20 10 two 5 6 refl (omega arith)

get-put_example : (get eq weigh (put eq weigh 20 10 two 1 6) 1).0 ≡ some 6
get-put_example = get-put eq weigh 20 10 two 1 6 refl refl (omega arith) (omega arith)

put-flushes_example : (put eq weigh 20 10 two 5 11).lru ≡ []
put-flushes_example = put-flushes eq weigh 20 10 two 5 11 refl (omega arith) (omega arith)
