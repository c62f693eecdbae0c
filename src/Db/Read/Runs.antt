-- ===== src/Db/Read/Runs.antt =====
-- Runs of entries, src/db.cpp: the first run that shows a version of the key answers a lookup.
use bedrockkv.Prelude.{
  ℕ, ◌≤◌, ◌<◌, ◌≡◌, refl, ap, sym, ◌∙◌, true, false, ◌&&◌, inl, inr, ◌⊎◌, Bool-cases, Option, none,
  some, List, [], ◌∷◌, ◌++◌, arith, Bytes, All, leb, ◌==◌, if◌then◌else◌,
}
use bedrockkv.Prelude.Order.{
  bytes_eq, bytes_lt, bytes_eq_self, eq_of_bytes_eq, bytes_lt_irrefl, bytes_eq-lt,
  bytes_lt_of_le_left, bytes_lt_of_le_right,
}
use bedrockkv.Status.{Status, ok, is_ok, code_eq}
use bedrockkv.Key.{type_deletion}
use bedrockkv.Db.Compaction.{Entry}
use bedrockkv.Db.Compaction.Visible.{visible}
use bedrockkv.Db.Read.{Lookup, found, deleted, missing, decide, or_else, decide_memory}

-- What the version that is seen means to a lookup.
unfoldable pub outcome : Option Entry → Lookup
outcome none = missing
outcome (some e) = if e.type == type_deletion then deleted else found e.value

-- The first list that shows a version decides.
pub visible-append :
    (key : Bytes) (seq : ℕ) (xs ys : List Entry)
    → visible key seq (xs ++ ys)
      ≡ elim (visible key seq xs) [ none ↦ visible key seq ys | some e ↦ some e ]
unfolding visible
visible-append key seq [] ys = refl
visible-append key seq (x ∷ xs) ys = elim (Bool-cases (bytes_eq x.user key && leb x.seq seq)) [
  | inl seen ↦ rw seen refl
  | inr other ↦ rw other (visible-append key seq xs ys)
]

abbrev pub answered : List Entry → Bytes → ℕ → Lookup × Status
answered es key seq = (outcome (visible key seq es), ok)

pub or_else-decide :
    (o : Option Entry) (rest : Option Entry)
    → or_else (decide (outcome o, ok)) (outcome rest, ok)
      ≡ (outcome (elim o [ none ↦ rest | some e ↦ some e ]), ok)
unfolding or_else decide outcome is_ok code_eq
or_else-decide none rest = refl
or_else-decide (some e) rest = elim (Bool-cases (e.type == type_deletion)) [
  | inl gone ↦ rw gone refl
  | inr held ↦ rw held refl
]

pub or_else-decide_memory :
    (o : Option Entry) (rest : Option Entry)
    → or_else (decide_memory (outcome o)) (outcome rest, ok)
      ≡ (outcome (elim o [ none ↦ rest | some e ↦ some e ]), ok)
unfolding or_else decide_memory outcome
or_else-decide_memory none rest = refl
or_else-decide_memory (some e) rest = elim (Bool-cases (e.type == type_deletion)) [
  | inl gone ↦ rw gone refl
  | inr held ↦ rw held refl
]

-- A source that answers from a run, with what the sources behind it answer.
pub or_else-run :
    (xs ys : List Entry) (key : Bytes) (seq : ℕ)
    → or_else (decide (outcome (visible key seq xs), ok)) (answered ys key seq)
      ≡ answered (xs ++ ys) key seq
or_else-run xs ys key seq =
    or_else-decide (visible key seq xs) (visible key seq ys)
    ∙ ap (λ (o : Option Entry). (outcome o, ok)) (sym (visible-append key seq xs ys))

pub or_else-memory_run :
    (xs ys : List Entry) (key : Bytes) (seq : ℕ)
    → or_else (decide_memory (outcome (visible key seq xs))) (answered ys key seq)
      ≡ answered (xs ++ ys) key seq
or_else-memory_run xs ys key seq =
    or_else-decide_memory (visible key seq xs) (visible key seq ys)
    ∙ ap (λ (o : Option Entry). (outcome o, ok)) (sym (visible-append key seq xs ys))

abbrev pub IsOther : Bytes → Entry → Type 0
IsOther key x = bytes_eq x.user key ≡ false

pub visible-nothing :
    (key : Bytes) (seq : ℕ) (es : List Entry)
    → All (λ x. bytes_eq x.user key ≡ false) es
    → visible key seq es ≡ none
unfolding visible
visible-nothing key seq [] h = refl
visible-nothing key seq (e ∷ es) h = ground (arith, h.0, visible-nothing key seq es h.1)

-- A run without the key shows nothing.
pub skip_run :
    (key : Bytes) (seq : ℕ) (xs ys : List Entry)
    → All (IsOther key) xs
    → answered (xs ++ ys) key seq ≡ answered ys key seq
skip_run key seq xs ys h =
    ap (λ (o : Option Entry). (outcome o, ok))
      (visible-append key seq xs ys ∙ rw (visible-nothing key seq xs h) refl)

pub IsOther-below :
    (key bound : Bytes) (e : Entry)
    → bytes_lt bound key ≡ true
    → bytes_lt bound e.user ≡ false
    → IsOther key e
IsOther-below key bound e lt le =
    bytes_eq-lt e.user key (bytes_lt_of_le_left e.user bound key le lt)

pub IsOther-above :
    (key bound : Bytes) (e : Entry)
    → bytes_lt key bound ≡ true
    → bytes_lt e.user bound ≡ false
    → IsOther key e
IsOther-above key bound e lt le = ground (
  arith,
  eq_of_bytes_eq e.user key,
  bytes_lt_irrefl key,
  bytes_lt_of_le_right key bound e.user lt le,
)

-- Newer versions of a key stand in front.
abbrev pub IsRecent : List Entry → Type 0
IsRecent [] = Unit
IsRecent (e ∷ es) = All (λ (x : Entry). x.user ≡ e.user → x.seq ≤ e.seq) es × IsRecent es

abbrev pub IsAmong : Entry → List Entry → Type 0
IsAmong e [] = ⊥
IsAmong e (x ∷ xs) = (x ≡ e) ⊎ IsAmong e xs

-- The version with the largest sequence number at or below `seq`, among those of the key.
abbrev pub IsNewest : Bytes → ℕ → List Entry → Option Entry → Type 0
IsNewest key seq es none = All (λ (x : Entry). x.user ≡ key → seq < x.seq) es
IsNewest key seq es (some e) =
    IsAmong e es
    × (e.user ≡ key)
    × (e.seq ≤ seq)
    × All (λ (x : Entry). x.user ≡ key → x.seq ≤ seq → x.seq ≤ e.seq) es

pub shown_first :
    (e : Entry) (key : Bytes) (seq : ℕ) (es : List Entry)
    → e.user ≡ key
    → All (λ (x : Entry). x.user ≡ e.user → x.seq ≤ e.seq) es
    → All (λ (x : Entry). x.user ≡ key → x.seq ≤ seq → x.seq ≤ e.seq) es
shown_first e key seq [] p h = tt
shown_first e key seq (x ∷ es) p h = (λ q le. h.0 (q ∙ sym p), shown_first e key seq es p h.1)

pub behind_other :
    (e : Entry) (key : Bytes) (seq : ℕ) (es : List Entry) (o : Option Entry)
    → (bytes_eq e.user key && leb e.seq seq) ≡ false
    → IsNewest key seq es o
    → IsNewest key seq (e ∷ es) o
behind_other e key seq es none other h = (λ p. ground (arith, other, p, bytes_eq_self key), h)
behind_other e key seq es (some x) other h =
    (inr h.0, h.1, h.2, (λ p le. absurd (ground (arith, other, p, le, bytes_eq_self key)), h.3))

pub visible-IsNewest :
    (key : Bytes) (seq : ℕ) (es : List Entry)
    → IsRecent es
    → IsNewest key seq es (visible key seq es)
unfolding visible
visible-IsNewest key seq [] h = tt
visible-IsNewest key seq (e ∷ es) h = elim (Bool-cases (bytes_eq e.user key && leb e.seq seq)) [
  | inl seen ↦
      let p : e.user ≡ key = eq_of_bytes_eq e.user key (ground (arith, seen)) in
      rw seen (
        inl refl,
        p,
        ground (arith, seen),
        ((λ q le. ground arith), shown_first e key seq es p h.0),
      )
  | inr other ↦
      rw other
        (behind_other e key seq es (visible key seq es) other (visible-IsNewest key seq es h.1))
]
