-- ===== src/Common/Slices/Trimming.antt =====
-- A text that is trimmed stays as it is when it is trimmed again.
use north.Common.{
  ℕ, ◌≡◌, refl, ap, sym, ◌∙◌, subst, inl, inr, false, List, [], ◌∷◌, ◌++◌, is_whitespace,
  Bool-cases,
}
use mathlib.Core.List.{reverse, reverse-reverse, reverse-append}
use north.Common.Slices.{trim, trim_start}

-- The text does not begin with white space.
abbrev IsFlush : List ℕ → Type 0
IsFlush [] = Unit
IsFlush (c ∷ text) = is_whitespace c ≡ false

trim_start-IsFlush : (text : List ℕ) → IsFlush (trim_start text)
unfolding trim_start
trim_start-IsFlush [] = tt
trim_start-IsFlush (c ∷ text) = elim (Bool-cases (is_whitespace c)) [
  | inl space ↦ rw space (trim_start-IsFlush text)
  | inr ink ↦ rw ink ink
]

trim_start_flush : (text : List ℕ) → IsFlush text → trim_start text ≡ text
unfolding trim_start
trim_start_flush [] h = refl
trim_start_flush (c ∷ text) h = rw h refl

-- What is stripped stands in front of what is left.
trim_start-suffix : (text : List ℕ) → (front : List ℕ) × (text ≡ (front ++ trim_start text))
unfolding trim_start
trim_start-suffix [] = ([], refl)
trim_start-suffix (c ∷ text) =
    let (front, joined) = trim_start-suffix text in
    elim (Bool-cases (is_whitespace c)) [
      | inl space ↦ (c ∷ front, rw space (ap (λ t. c ∷ t) joined))
      | inr ink ↦ ([], rw ink refl)
    ]

append-IsFlush : (xs ys : List ℕ) → IsFlush (xs ++ ys) → IsFlush xs
append-IsFlush [] ys h = tt
append-IsFlush (x ∷ xs) ys h = h

trim-IsFlush : (text : List ℕ) → IsFlush (trim text)
unfolding trim
trim-IsFlush text =
    let start = trim_start text in
    let (front, joined) = trim_start-suffix (reverse start) in
    let back = trim_start (reverse start) in
    let whole : start ≡ (reverse back ++ reverse front) =
      sym (reverse-reverse start) ∙ ap reverse joined ∙ reverse-append front back in
    append-IsFlush (reverse back) (reverse front) (subst IsFlush whole (trim_start-IsFlush text))

-- `trim` gives a text that `trim` leaves as it is.
pub trim-trim : (text : List ℕ) → trim (trim text) ≡ trim text
unfolding trim
trim-trim text =
    let back = trim_start (reverse (trim_start text)) in
    ap (λ t. reverse (trim_start (reverse t))) (trim_start_flush (trim text) (trim-IsFlush text))
    ∙ ap (λ t. reverse (trim_start t)) (reverse-reverse back)
    ∙ ap reverse (trim_start_flush back (trim_start-IsFlush (reverse (trim_start text))))
