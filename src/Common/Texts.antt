-- ===== src/Common/Texts.antt =====
-- Texts: a `String` is a list of characters. Rust's `str::trim` strips Unicode `White_Space`
-- from both ends, so `s.trim().is_empty()` says that every character of `s` is white space.
use Prim.Native.Nat.{ℕ, ◌+◌}
use Prim.Native.Char.{code}
use Prim.Native.String.{String}
use mathlib.Core.Path.{◌≡◌, refl}
use mathlib.Core.Bool.{Bool, true, false, ◌&&◌, ◌||◌}
use mathlib.Core.List.{List, [], ◌∷◌}
use native.Mathlib.Omega.{arith}
use text.Mathlib.Text.{◌==◌ as str_eq}
use text.Mathlib.TextEquality.{eq_iff}
use north.Common.Tests.{leb, ltb, ◌==◌, if◌then◌else◌}

-- `char::is_whitespace`
abbrev pub is_whitespace : ℕ → Bool
is_whitespace c =
    leb 9 c && leb c 13
    || c == 32
    || c == 0x85
    || c == 0xa0
    || c == 0x1680
    || leb 0x2000 c && leb c 0x200a
    || c == 0x2028
    || c == 0x2029
    || c == 0x202f
    || c == 0x205f
    || c == 0x3000

-- `s.trim().is_empty()`
unfoldable pub is_blank : String → Bool
is_blank String.[] = true
is_blank (String.◌∷◌ c s) = is_whitespace (code c) && is_blank s

-- `==` on `Vec<String>`
abbrev pub strs_eq : List String → List String → Bool
strs_eq [] [] = true
strs_eq (x ∷ xs) (y ∷ ys) = str_eq x y && strs_eq xs ys
strs_eq _ _ = false

pub strs_eq_sound : (xs ys : List String) → strs_eq xs ys ≡ true → xs ≡ ys
strs_eq_sound [] [] h = refl
strs_eq_sound [] (y ∷ ys) h = cc
strs_eq_sound (x ∷ xs) [] h = cc
strs_eq_sound (x ∷ xs) (y ∷ ys) h = ground (arith, eq_iff x y, strs_eq_sound xs ys)

pub strs_eq_refl : (xs : List String) → strs_eq xs xs ≡ true
strs_eq_refl [] = refl
strs_eq_refl (x ∷ xs) = ground (arith, eq_iff x x, strs_eq_refl xs)

-- The number of bytes that a code point takes in UTF-8, and `str::len`.
abbrev pub utf8_len : ℕ → ℕ
utf8_len c = if ltb c 0x80 then 1 else if ltb c 0x800 then 2 else if ltb c 0x10000 then 3 else 4

unfoldable pub byte_len : String → ℕ
byte_len String.[] = 0
byte_len (String.◌∷◌ c s) = utf8_len (code c) + byte_len s

-- `u8::is_ascii_hexdigit`, of every byte: a byte of a longer character is not ASCII.
abbrev is_ascii_hexdigit : ℕ → Bool
is_ascii_hexdigit c = leb 48 c && leb c 57 || leb 65 c && leb c 70 || leb 97 c && leb c 102

unfoldable pub all_hexdigits : String → Bool
all_hexdigits String.[] = true
all_hexdigits (String.◌∷◌ c s) = is_ascii_hexdigit (code c) && all_hexdigits s
