-- ===== src/Common/Slices/Joins.antt =====
-- The parts that the methods on `str` find make up the text.
use north.Common.{
  ℕ, ◌≡◌, refl, ap, ◌∙◌, subst, inl, inr, Bool, true, false, Option, none, some, List, [], ◌∷◌,
  ◌++◌, arith, ◌==◌, if◌then◌else◌, Bool-cases,
}
use north.Common.Slices.{split_once, strip_prefix, contains_char, text_eq}

eq_sound : (m n : ℕ) → (m == n) ≡ true → m ≡ n
eq_sound m n h = ground arith

-- What `split_once` makes of what it finds later in the text.
abbrev longer : ℕ → Option (List ℕ × List ℕ) → Option (List ℕ × List ℕ)
longer d none = none
longer d (some p) = some (d ∷ p.0, p.1)

later_parts :
    (c d : ℕ) (text a rest : List ℕ) (later : Option (List ℕ × List ℕ))
    → (d == c) ≡ false
    → longer d later ≡ some (a, rest)
    → ((a' : List ℕ)
        → later ≡ some (a', rest)
        → (text ≡ (a' ++ (c ∷ rest))) × (contains_char c a' ≡ false))
    → ((d ∷ text) ≡ (a ++ (c ∷ rest))) × (contains_char c a ≡ false)
unfolding contains_char
later_parts c d text a rest none other h parts = absurd (cc h)
later_parts c d text a rest (some (a', rest')) other h parts =
    let front : d ∷ a' ≡ a = ground arith in
    let back : rest' ≡ rest = ground arith in
    let (joined, free) = parts a' (ap (λ r. some (a', r)) back) in
    (
      ap (λ t. d ∷ t) joined ∙ ap (λ t. t ++ (c ∷ rest)) front,
      subst (λ t. contains_char c t ≡ false) front (ground (arith, free)),
    )

pub split_once-some :
    (c : ℕ) (text a rest : List ℕ)
    → split_once c text ≡ some (a, rest)
    → (text ≡ (a ++ (c ∷ rest))) × (contains_char c a ≡ false)
unfolding split_once contains_char
split_once-some c [] a rest h = absurd (cc h)
split_once-some c (d ∷ text) a rest h = elim (Bool-cases (d == c)) [
  | inl here ↦
      let same = eq_sound d c here in
      let front : [] ≡ a = ground arith in
      let back : text ≡ rest = ground arith in
      (
        ap (λ t. d ∷ t) back ∙ ap (λ x. x ∷ rest) same ∙ ap (λ t. t ++ (c ∷ rest)) front,
        subst (λ t. contains_char c t ≡ false) front refl,
      )
  | inr other ↦
      later_parts c d text a rest (split_once c text) other
        (by_later (split_once c text) (d == c) other h) (λ a'. split_once-some c text a' rest)
]
  where
    by_later :
        (later : Option (List ℕ × List ℕ)) (b : Bool)
        → b ≡ false
        → if◌then◌else◌ {A = Option (List ℕ × List ℕ)} b
            (some ([], text))
            (elim later [ none ↦ none | some p ↦ some (d ∷ p.0, p.1) ])
          ≡ some (a, rest)
        → longer d later ≡ some (a, rest)
    by_later later true e h = absurd (cc e)
    by_later none false e h = h
    by_later (some p) false e h = h

pub strip_prefix-some :
    (prefix text rest : List ℕ) → strip_prefix prefix text ≡ some rest → text ≡ (prefix ++ rest)
unfolding strip_prefix
strip_prefix-some [] text rest h = ground arith
strip_prefix-some (c ∷ prefix) [] rest h = absurd (cc h)
strip_prefix-some (c ∷ prefix) (d ∷ text) rest h = elim (Bool-cases (c == d)) [
  | inl own ↦
      let same = eq_sound c d own in
      let later = strip_prefix-some prefix text rest in ground (arith, later, same)
  | inr other ↦ absurd (ground arith)
]

pub text_eq_sound : (s t : List ℕ) → text_eq s t ≡ true → s ≡ t
text_eq_sound [] [] h = refl
text_eq_sound [] (d ∷ t) h = absurd (cc h)
text_eq_sound (c ∷ s) [] h = absurd (cc h)
text_eq_sound (c ∷ s) (d ∷ t) h = ground (arith, text_eq_sound s t)

pub split_once-none :
    (c : ℕ) (text : List ℕ) → split_once c text ≡ none → contains_char c text ≡ false
unfolding split_once contains_char
split_once-none c [] h = refl
split_once-none c (d ∷ text) h = elim (Bool-cases (d == c)) [
  | inl here ↦ absurd (found (split_once c text) (d == c) here h)
  | inr other ↦
      let rest = split_once-none c text (nothing_later (split_once c text) (d == c) other h) in
      rw other rest
]
  where
    nothing_later :
        (later : Option (List ℕ × List ℕ)) (b : Bool)
        → b ≡ false
        → if◌then◌else◌ {A = Option (List ℕ × List ℕ)} b
            (some ([], text))
            (elim later [ none ↦ none | some p ↦ some (d ∷ p.0, p.1) ])
          ≡ none
        → later ≡ none
    nothing_later later true e h = absurd (cc e)
    nothing_later none false e h = refl
    nothing_later (some p) false e h = absurd (cc h)

    found :
        (later : Option (List ℕ × List ℕ)) (b : Bool)
        → b ≡ true
        → if◌then◌else◌ {A = Option (List ℕ × List ℕ)} b
            (some ([], text))
            (elim later [ none ↦ none | some p ↦ some (d ∷ p.0, p.1) ])
          ≡ none
        → ⊥
    found later true e h = cc h
    found later false e h = cc e
