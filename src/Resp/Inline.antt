-- ===== src/Resp/Inline.antt =====
-- Inline requests: a line of blanks.
use bedrockkv.Prelude.{
  ℕ, zero, suc, ◌+◌, ◌-◌, ◌≡◌, refl, ap, sym, ◌∙◌, true, false, ◌&&◌, some, [], ◌∷◌, ◌++◌,
  append_assoc, arith, Bytes, All, length, drop, byte_at, ltb, ◌==◌, if◌then◌else◌, length-append,
  drop-append, take-append,
}
use bedrockkv.Resp.{
  need_more, answer, shift, find_newline, line_ends, is_blank, skip_blanks, word, words,
  next_inline, idle_step, parse_step, next,
}
use bedrockkv.Resp.RoundTrip.{between, loop_answer}

-- A byte that `NextInline` skips.
abbrev pub IsBlank : ℕ → Type 0
IsBlank c = is_blank c ≡ true

skip_blanks-IsBlank : (w : Bytes) → All IsBlank w → skip_blanks w ≡ []
unfolding skip_blanks
skip_blanks-IsBlank [] h = refl
skip_blanks-IsBlank (c ∷ w) h = rw (h.0, skip_blanks-IsBlank w h.1) refl

words-nil : (fuel : ℕ) → words fuel [] ≡ []
unfolding words
words-nil zero = refl
words-nil (suc fuel) = refl

words-IsBlank : (fuel : ℕ) (w : Bytes) → All IsBlank w → words fuel w ≡ []
unfolding words word drop
words-IsBlank zero w h = refl
words-IsBlank (suc fuel) [] h = refl
words-IsBlank (suc fuel) (c ∷ w) h =
    rw (skip_blanks-IsBlank (c ∷ w) h, words-nil fuel) (ground arith)

find_newline-IsBlank :
    (w rest : Bytes) → All IsBlank w → find_newline (w ++ 10 ∷ rest) ≡ some (length w)
unfolding find_newline shift
find_newline-IsBlank [] rest h = refl
find_newline-IsBlank (c ∷ w) rest h =
    let other : (c == 10) ≡ false = ground (arith, h.0) in
    rw (other, find_newline-IsBlank w rest h.1) (ap some (omega arith))

last_byte :
    (c : ℕ) (w rest : Bytes)
    → All IsBlank (c ∷ w)
    → (byte_at (c ∷ (w ++ 10 ∷ rest)) (length (c ∷ w) - 1) == 13) ≡ false
unfolding byte_at
last_byte c [] rest h = ground (arith, h.0)
last_byte c (d ∷ w) rest h =
    let back : length (c ∷ d ∷ w) - 1 ≡ suc (length (d ∷ w) - 1) = omega arith in
    rw back (last_byte d w rest h.1)

module _ (c : ℕ) (w rest : Bytes) (h : All IsBlank (c ∷ w)) where
  abbrev line : Bytes
  line = (c ∷ w) ++ 10 ∷ rest

  whole_line : next_inline (between line) (some (length (c ∷ w))) ≡ (need_more, between rest)
  unfolding next_inline
  whole_line =
      let n : ℕ = length (c ∷ w) in
      let end : (if ltb 0 n && false then n - 1 else n) ≡ n = ground arith in
      let count : n + 1 ≡ length ((c ∷ w) ++ 10 ∷ []) =
        omega (arith, length-append (c ∷ w) (10 ∷ [])) in
      let behind : drop (n + 1) line ≡ rest =
        ap (drop (n + 1)) (sym (append_assoc (c ∷ w) (10 ∷ []) rest))
        ∙ drop-append (n + 1) ((c ∷ w) ++ 10 ∷ []) rest count in
      rw
        (
          last_byte c w rest h,
          end,
          take-append n (c ∷ w) (10 ∷ rest) refl,
          words-IsBlank n (c ∷ w) h,
          behind,
        )
        refl

  step_blank : parse_step (between line) ≡ answer need_more (between rest)
  unfolding parse_step idle_step line_ends byte_at drop
  step_blank =
      let a : (c == 13) ≡ false = ground (arith, h.0) in
      let b : (c == 10) ≡ false = ground (arith, h.0) in
      let d : (c == b'*') ≡ false = ground (arith, h.0) in
      rw (a, b, d, find_newline-IsBlank (c ∷ w) rest h, whole_line) (ground arith)

-- A line of blanks makes the parser ask for more bytes, whatever stands behind the line in the
-- buffer; these bytes are kept.
pub next-blank_line :
    (c : ℕ) (w rest : Bytes)
    → All IsBlank (c ∷ w)
    → next (between ((c ∷ w) ++ 10 ∷ rest)) ≡ (need_more, between rest)
unfolding next
next-blank_line c w rest h =
    let fuel : length ((c ∷ w) ++ 10 ∷ rest) + 1 ≡ suc (length ((c ∷ w) ++ 10 ∷ rest)) =
      omega arith in
    rw fuel (
      loop_answer (length ((c ∷ w) ++ 10 ∷ rest)) (between ((c ∷ w) ++ 10 ∷ rest)) (between rest)
        need_more (step_blank c w rest h))
