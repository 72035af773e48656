-- ===== src/Common/Slices.antt =====
-- `str` as a sequence of characters, with the methods of Rust's standard library that split it.
pub mod Joins
pub mod Trimming
use north.Common.{
  ℕ, ◌+◌, utf8_len, ◌==◌, Bool, true, false, ◌&&◌, ◌||◌, Option, none, some, List, [], ◌∷◌, any,
  is_empty, is_whitespace, if◌then◌else◌,
}
use mathlib.Core.List.{reverse}

-- The text before and after the first character `c`, if there is one.
unfoldable pub split_once : ℕ → List ℕ → Option (List ℕ × List ℕ)
split_once c [] = none
split_once c (d ∷ text) =
    let later = split_once c text in
    if d == c then some ([], text) else elim later [ none ↦ none | some p ↦ some (d ∷ p.0, p.1) ]

-- `str::split` at a character
abbrev cons_head : ℕ → List (List ℕ) → List (List ℕ)
cons_head c [] = (c ∷ []) ∷ []
cons_head c (piece ∷ pieces) = (c ∷ piece) ∷ pieces

unfoldable pub split_at : ℕ → List ℕ → List (List ℕ)
split_at c [] = [] ∷ []
split_at c (d ∷ text) =
    let pieces = split_at c text in if d == c then [] ∷ pieces else cons_head d pieces

-- `str::trim`
unfoldable pub trim_start : List ℕ → List ℕ
trim_start [] = []
trim_start (c ∷ text) = let rest = trim_start text in if is_whitespace c then rest else c ∷ text

unfoldable pub trim : List ℕ → List ℕ
unfolding trim_start
trim text = reverse (trim_start (reverse (trim_start text)))

-- `str::strip_prefix`
unfoldable pub strip_prefix : List ℕ → List ℕ → Option (List ℕ)
strip_prefix [] text = some text
strip_prefix (c ∷ prefix) [] = none
strip_prefix (c ∷ prefix) (d ∷ text) =
    let rest = strip_prefix prefix text in if c == d then rest else none

-- `str::starts_with` and `ends_with` a character
unfoldable pub starts_with : ℕ → List ℕ → Bool
starts_with c [] = false
starts_with c (d ∷ text) = d == c

unfoldable pub ends_with : ℕ → List ℕ → Bool
ends_with c [] = false
ends_with c (d ∷ []) = d == c
ends_with c (d ∷ e ∷ text) = ends_with c (e ∷ text)

-- `str::contains` of a character, of any of some characters, and of a text
unfoldable pub contains_char : ℕ → List ℕ → Bool
contains_char c text = any (λ d. d == c) text

unfoldable pub contains_any : List ℕ → List ℕ → Bool
unfolding contains_char
contains_any cs text = any (λ d. contains_char d cs) text

abbrev pub is_found : Option (List ℕ) → Bool
is_found none = false
is_found (some rest) = true

unfoldable pub contains_text : List ℕ → List ℕ → Bool
unfolding strip_prefix
contains_text needle [] = is_empty needle
contains_text needle (d ∷ text) =
    is_found (strip_prefix needle (d ∷ text)) || contains_text needle text

unfoldable pub starts_text : List ℕ → List ℕ → Bool
unfolding strip_prefix
starts_text prefix text = is_found (strip_prefix prefix text)

abbrev split_here : ℕ → Option (List ℕ) → Option (List ℕ × List ℕ) → Option (List ℕ × List ℕ)
split_here d (some rest) later = some ([], rest)
split_here d none none = none
split_here d none (some p) = some (d ∷ p.0, p.1)

-- `str::split_once` at a text
unfoldable pub split_text : List ℕ → List ℕ → Option (List ℕ × List ℕ)
unfolding strip_prefix
split_text needle [] = elim (strip_prefix needle []) [ none ↦ none | some rest ↦ some ([], rest) ]
split_text needle (d ∷ text) =
    split_here d (strip_prefix needle (d ∷ text)) (split_text needle text)

-- `str::rsplit_once`: the text before and after the last character `c`, if there is one.
unfoldable pub rsplit_once : ℕ → List ℕ → Option (List ℕ × List ℕ)
unfolding contains_char
rsplit_once c [] = none
rsplit_once c (d ∷ text) = elim (rsplit_once c text) [
  | some p ↦ some (d ∷ p.0, p.1)
  | none ↦ if d == c then some ([], text) else none
]

-- `str::len`, in bytes
unfoldable pub text_len : List ℕ → ℕ
text_len [] = 0
text_len (c ∷ text) = utf8_len c + text_len text

-- `==` on texts
abbrev pub text_eq : List ℕ → List ℕ → Bool
text_eq [] [] = true
text_eq (c ∷ s) (d ∷ t) = c == d && text_eq s t
text_eq _ _ = false
