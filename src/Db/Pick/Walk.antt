-- ===== src/Db/Pick/Walk.antt =====
-- The walks of `DB::PickCompaction` (src/db.cpp) over the target level.
use bedrockkv.Prelude.{
  ℕ, ◌+◌, ◌≤◌, ◌<◌, ◌≡◌, refl, ap, sym, ◌∙◌, subst, Bool, true, false, ◌||◌, ◌⊎◌, inl, inr,
  Bool-cases, List, [], ◌∷◌, ◌++◌, map, arith, Bytes, All, All-append, ◌==◌, if◌then◌else◌,
}
use bedrockkv.Prelude.Order.{bytes_lt, bytes_lt_irrefl, bytes_lt_trans, bytes_lt_asymm}
use bedrockkv.Db.Pick.{
  TableRef, min_key, max_key, Picking, is_picked, overlaps, pick_file, pick_round,
}

abbrev pub number : TableRef → ℕ
number r = r.meta.file_number

-- The keys of a file lie in a range.
abbrev pub IsInside : Bytes → Bytes → TableRef → Type 0
IsInside lo hi r =
    (bytes_lt r.smallest_user_key lo ≡ false) × (bytes_lt hi r.largest_user_key ≡ false)

-- A file is among the picked ones, or apart from the range.
abbrev pub IsSettled : Picking → TableRef → Type 0
IsSettled p r = (is_picked r.meta.file_number p.picked ≡ true) ⊎ (overlaps p.lo p.hi r ≡ false)

-- The files of the target level that are not picked yet.
unfoldable pub unpicked : List TableRef → List ℕ → ℕ
unpicked [] picked = 0
unpicked (r ∷ rs) picked = (if is_picked (number r) picked then 0 else 1) + unpicked rs picked

below_min : (a b x : Bytes) → bytes_lt x a ≡ false → bytes_lt x (min_key a b) ≡ false
unfolding min_key
below_min a b x h = ground (arith, h, bytes_lt_trans x b a, bytes_lt_asymm x b)

pub min_below : (a b : Bytes) → bytes_lt b (min_key a b) ≡ false
unfolding min_key
min_below a b = ground (arith, bytes_lt_irrefl b)

above_max : (a b x : Bytes) → bytes_lt a x ≡ false → bytes_lt (max_key a b) x ≡ false
unfolding max_key
above_max a b x h = ground (arith, h, bytes_lt_trans a b x)

pub max_above : (a b : Bytes) → bytes_lt (max_key a b) b ≡ false
unfolding max_key
max_above a b = ground (arith, bytes_lt_irrefl b)

-- A file stays inside a range that grows.
pub IsInside-grown :
    (lo hi s l : Bytes) (r : TableRef) → IsInside lo hi r → IsInside (min_key lo s) (max_key hi l) r
IsInside-grown lo hi s l r h =
    (below_min lo s r.smallest_user_key h.0, above_max hi l r.largest_user_key h.1)

All-IsInside-grown :
    (lo hi s l : Bytes) (rs : List TableRef)
    → All (IsInside lo hi) rs
    → All (IsInside (min_key lo s) (max_key hi l)) rs
All-IsInside-grown lo hi s l [] h = tt
All-IsInside-grown lo hi s l (r ∷ rs) h =
    (IsInside-grown lo hi s l r h.0, All-IsInside-grown lo hi s l rs h.1)

file_stays :
    (n : ℕ) (r : TableRef) (p : Picking)
    → is_picked n p.picked ≡ true
    → is_picked n (pick_file p r).picked ≡ true
unfolding pick_file is_picked
file_stays n r p h = ground (arith, h)

file_changed : (r : TableRef) (p : Picking) → p.changed ≡ true → (pick_file p r).changed ≡ true
unfolding pick_file
file_changed r p h = ground (arith, h)

-- What the round does at one file.
data FileCase (p : Picking) (r : TableRef) : Type 0 where
  settled : pick_file p r ≡ p → IsSettled p r → FileCase p r
  newly :
      is_picked r.meta.file_number p.picked ≡ false
      → is_picked r.meta.file_number (pick_file p r).picked ≡ true
      → (pick_file p r).changed ≡ true
      → FileCase p r

file_case : (p : Picking) (r : TableRef) → FileCase p r
unfolding pick_file is_picked
file_case p r = elim (Bool-cases (is_picked (number r) p.picked)) [
  | inl known ↦ settled (rw known refl) (inl known)
  | inr fresh ↦ elim (Bool-cases (overlaps p.lo p.hi r)) [
    | inr apart ↦ settled (rw (fresh, apart) refl) (inr apart)
    | inl meets ↦ newly fresh (rw (fresh, meets) (ground arith)) (rw (fresh, meets) refl)
  ]
]

picked_stays :
    (n : ℕ) (rs : List TableRef) (p : Picking)
    → is_picked n p.picked ≡ true
    → is_picked n (pick_round rs p).picked ≡ true
unfolding pick_round
picked_stays n [] p h = h
picked_stays n (r ∷ rs) p h = picked_stays n rs (pick_file p r) (file_stays n r p h)

unpicked_falls :
    (rs ts : List TableRef) (p : Picking)
    → unpicked ts (pick_round rs p).picked ≤ unpicked ts p.picked
unfolding unpicked
unpicked_falls rs [] p = omega arith
unpicked_falls rs (t ∷ ts) p = ground (arith, unpicked_falls rs ts p, picked_stays (number t) rs p)

file_falls :
    (r : TableRef) (ts : List TableRef) (p : Picking)
    → unpicked ts (pick_file p r).picked ≤ unpicked ts p.picked
unfolding unpicked
file_falls r [] p = omega arith
file_falls r (t ∷ ts) p = ground (arith, file_falls r ts p, file_stays (number t) r p)

changed_stays :
    (rs : List TableRef) (p : Picking) → p.changed ≡ true → (pick_round rs p).changed ≡ true
unfolding pick_round
changed_stays [] p h = h
changed_stays (r ∷ rs) p h = changed_stays rs (pick_file p r) (file_changed r p h)

-- A walk that changes something picks a file that was not picked.
pub round_falls :
    (rs : List TableRef) (p : Picking)
    → p.changed ≡ false
    → (pick_round rs p).changed ≡ true
    → unpicked rs (pick_round rs p).picked < unpicked rs p.picked
unfolding pick_round unpicked
round_falls [] p h k = absurd (cc (h, k))
round_falls (r ∷ rs) p h k = elim (file_case p r) [
  | settled same ok ↦
      let k' = sym (ap (λ (q : Picking). (pick_round rs q).changed) same) ∙ k in
      let ih = round_falls rs p h k' in
      subst
        (λ (q : Picking).
          (if is_picked (number r) (pick_round rs q).picked then 0 else 1)
            + unpicked rs (pick_round rs q).picked
          < (if is_picked (number r) p.picked then 0 else 1) + unpicked rs p.picked)
        (sym same) (ground (arith, ih, picked_stays (number r) rs p))
  | newly fresh picked changes ↦ ground (
    arith,
    fresh,
    picked_stays (number r) rs (pick_file p r) picked,
    unpicked_falls rs rs (pick_file p r),
    file_falls r rs p,
  )
]

-- A walk that changes nothing leaves every file settled.
pub round-IsSettled :
    (rs : List TableRef) (p : Picking)
    → p.changed ≡ false
    → (pick_round rs p).changed ≡ false
    → (pick_round rs p ≡ p) × All (IsSettled p) rs
unfolding pick_round
round-IsSettled [] p h k = (refl, tt)
round-IsSettled (r ∷ rs) p h k = elim (file_case p r) [
  | settled same ok ↦
      let rest = round-IsSettled rs p h (sym (ap (λ q. (pick_round rs q).changed) same) ∙ k) in
      (ap (pick_round rs) same ∙ rest.0, (ok, rest.1))
  | newly fresh picked changes ↦ absurd (cc (k, changed_stays rs (pick_file p r) changes))
]

-- The files that are picked lie inside the range.
abbrev pub IsCovered : Picking → Type 0
IsCovered p = All (IsInside p.lo p.hi) p.inputs_b

file-IsCovered : (p : Picking) (r : TableRef) → IsCovered p → IsCovered (pick_file p r)
unfolding pick_file
file-IsCovered p r h = elim (Bool-cases (is_picked (number r) p.picked)) [
  | inl known ↦ rw known h
  | inr fresh ↦ elim (Bool-cases (overlaps p.lo p.hi r)) [
    | inr apart ↦ rw (fresh, apart) h
    | inl meets ↦
        rw (fresh, meets)
          (All-append
            (IsInside (min_key p.lo r.smallest_user_key) (max_key p.hi r.largest_user_key))
            p.inputs_b (r ∷ [])
            ((min_below p.lo r.smallest_user_key, max_above p.hi r.largest_user_key), tt)
            (All-IsInside-grown p.lo p.hi r.smallest_user_key r.largest_user_key p.inputs_b h))
  ]
]

-- The files in `inputs_b` are those whose numbers are picked.
abbrev pub IsTied : Picking → Type 0
IsTied p = (n : ℕ) → is_picked n p.picked ≡ is_picked n (map number p.inputs_b)

is_picked-last :
    (n : ℕ) (rs : List TableRef) (r : TableRef)
    → is_picked n (map number (rs ++ r ∷ [])) ≡ (n == number r || is_picked n (map number rs))
unfolding is_picked
is_picked-last n [] r = refl
is_picked-last n (t ∷ rs) r = ground (arith, is_picked-last n rs r)

file-IsTied : (p : Picking) (r : TableRef) → IsTied p → IsTied (pick_file p r)
unfolding pick_file is_picked
file-IsTied p r h n = elim (Bool-cases (is_picked (number r) p.picked)) [
  | inl known ↦ rw known (h n)
  | inr fresh ↦ elim (Bool-cases (overlaps p.lo p.hi r)) [
    | inr apart ↦ rw (fresh, apart) (h n)
    | inl meets ↦
        rw (fresh, meets)
          (ap (λ (b : Bool). n == number r || b) (h n) ∙ sym (is_picked-last n p.inputs_b r))
  ]
]

pub round-IsTied : (rs : List TableRef) (p : Picking) → IsTied p → IsTied (pick_round rs p)
unfolding pick_round
round-IsTied [] p h = h
round-IsTied (r ∷ rs) p h = round-IsTied rs (pick_file p r) (file-IsTied p r h)

-- What lies inside the range before lies inside it after.
file_keeps :
    (p : Picking) (r t : TableRef)
    → IsInside p.lo p.hi t
    → IsInside (pick_file p r).lo (pick_file p r).hi t
unfolding pick_file
file_keeps p r t h = elim (Bool-cases (is_picked (number r) p.picked)) [
  | inl known ↦ rw known h
  | inr fresh ↦ elim (Bool-cases (overlaps p.lo p.hi r)) [
    | inr apart ↦ rw (fresh, apart) h
    | inl meets ↦
        rw (fresh, meets) (IsInside-grown p.lo p.hi r.smallest_user_key r.largest_user_key t h)
  ]
]

abbrev pub KeepsInside : Picking → Picking → Type 0
KeepsInside p q = (t : TableRef) → IsInside p.lo p.hi t → IsInside q.lo q.hi t

pub round_keeps :
    (rs : List TableRef) (p : Picking)
    → IsCovered p
    → IsCovered (pick_round rs p) × KeepsInside p (pick_round rs p)
unfolding pick_round
round_keeps [] p h = (h, λ t k. k)
round_keeps (r ∷ rs) p h =
    let (covered, keeps) = round_keeps rs (pick_file p r) (file-IsCovered p r h) in
    (covered, λ t k. keeps t (file_keeps p r t k))
