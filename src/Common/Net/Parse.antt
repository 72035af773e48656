-- ===== src/Common/Net/Parse.antt =====
-- The parser of `IpAddr` in Rust's standard library, over the bytes of the text.
use north.Common.{
  ℕ, zero, suc, ◌+◌, ◌-◌, ◌*◌, ◌/◌, ◌%◌, String, List, [], ◌∷◌, ◌++◌, length, Option, none, some,
  Bool, true, false, not, ◌&&◌, ◌||◌, ◌==◌, leb, ltb, if◌then◌else◌, is_empty,
}
use north.Common.Net.{IpAddr, v4, v6}
use Prim.Native.Char.{code}

abbrev pub codes : String → List ℕ
codes String.[] = []
codes (String.◌∷◌ c s) = code c ∷ codes s

-- What a parser reads, and what is left.
abbrev Read : Type 0 → Type 0
Read A = Option (A × List ℕ)

-- `char::to_digit`
unfoldable pub to_digit : ℕ → ℕ → Option ℕ
to_digit radix c =
    let d =
      if leb 48 c && leb c 57
      then c - 48
      else if leb 97 c && leb c 122
      then c - 87
      else if leb 65 c && leb c 90
      then c - 55
      else 255 in
    if ltb d radix then some d else none

-- The digits at the front of a text, and the rest.
unfoldable pub digits : ℕ → List ℕ → List ℕ × List ℕ
digits radix [] = ([], [])
digits radix (c ∷ rest) =
    let later = digits radix rest in
    elim (to_digit radix c) [ none ↦ ([], c ∷ rest) | some d ↦ (d ∷ later.0, later.1) ]

unfoldable pub value_of : ℕ → ℕ → List ℕ → ℕ
value_of radix acc [] = acc
value_of radix acc (d ∷ ds) = value_of radix (acc * radix + d) ds

abbrev starts_with_zero : List ℕ → Bool
starts_with_zero [] = false
starts_with_zero (d ∷ ds) = d == 0

-- `read_number`, with a bound on the digits and one on the value.
unfoldable pub read_number : ℕ → ℕ → Bool → ℕ → List ℕ → Read ℕ
unfolding digits to_digit value_of
read_number radix max_digits allow_zero_prefix max_value text =
    let (ds, rest) = digits radix text in
    let value = value_of radix 0 ds in
    if is_empty ds
      || ltb max_digits (length ds)
      || not allow_zero_prefix && starts_with_zero ds && ltb 1 (length ds)
      || ltb max_value value
    then none
    else some (value, rest)

unfoldable pub given_char : ℕ → List ℕ → Option (List ℕ)
given_char c [] = none
given_char c (d ∷ rest) = if d == c then some rest else none

-- `read_separator`: the separator stands before every part but the first.
abbrev separated : ℕ → Bool → List ℕ → Option (List ℕ)
separated c true text = some text
separated c false text = given_char c text

abbrev pub then_read {ℓ} : {A B : Type ℓ} → Option A → (A → Option B) → Option B
then_read none f = none
then_read (some a) f = f a

-- The octets that are left to read, `first` before the first of them.
octets : ℕ → Bool → ℕ → List ℕ → Read ℕ
octets zero first acc text = some (acc, text)
octets (suc n) first acc text = then_read (separated b'.' first text) (λ rest.
    then_read (read_number 10 3 false 255 rest) (λ p. octets n false (acc * 256 + p.0) p.1))

unfoldable pub read_ipv4_addr : List ℕ → Read ℕ
unfolding octets given_char read_number
read_ipv4_addr = octets 4 true 0

-- `read_groups`: `left` groups may still be read; the groups read, whether the last two came from an
-- IPv4 address, and what is left. A group or an address that does not fit ends the reading.
abbrev Groups : Type 0
Groups = List ℕ × Bool × List ℕ

after_group : Option (ℕ × List ℕ) → List ℕ → (List ℕ → Groups) → Groups
after_group none text more = ([], false, text)
after_group (some (g, rest)) text more = let (gs, ipv4, end) = more rest in (g ∷ gs, ipv4, end)

read_groups : ℕ → Bool → List ℕ → Groups
read_groups zero first text = ([], false, text)
read_groups (suc left) first text =
    let address =
      if left == 0 then none else then_read (separated b':' first text) read_ipv4_addr in
    let group = then_read (separated b':' first text) (read_number 16 4 true 65535) in
    let more = λ (rest : List ℕ). read_groups left false rest in
    elim address [
      | some p ↦ (p.0 / 65536 ∷ p.0 % 65536 ∷ [], true, p.1)
      | none ↦ after_group group text more
    ]

-- The number that eight groups stand for.
abbrev of_groups : List ℕ → ℕ
of_groups gs = value_of 65536 0 gs

zeros : ℕ → List ℕ
zeros zero = []
zeros (suc n) = 0 ∷ zeros n

unfoldable pub read_ipv6_addr : List ℕ → Read ℕ
unfolding read_groups read_ipv4_addr after_group zeros
read_ipv6_addr text =
    let (head, head_ipv4, rest) = read_groups 8 true text in
    if length head == 8
    then some (of_groups head, rest)
    else if head_ipv4
    then none
    else then_read (then_read (given_char b':' rest) (given_char b':')) λ rest'.
      let (tail, _, end) = read_groups (8 - (length head + 1)) true rest' in
      some (of_groups (head ++ zeros (8 - length head - length tail) ++ tail), end)

-- `parse_with`: the whole text is read.
abbrev whole {ℓ} : {A : Type ℓ} → Option (A × List ℕ) → Option A
whole none = none
whole (some (a, [])) = some a
whole (some (a, _ ∷ _)) = none

-- `str::parse::<Ipv6Addr>`
unfoldable pub parse_ipv6 : List ℕ → Option ℕ
parse_ipv6 text = whole (read_ipv6_addr text)

abbrev or_v6 : Option (ℕ × List ℕ) → List ℕ → Option (IpAddr × List ℕ)
or_v6 (some (a, rest)) text = some (v4 a, rest)
or_v6 none text = then_read (read_ipv6_addr text) (λ p. some (v6 p.0, p.1))

-- `str::parse::<IpAddr>`
unfoldable pub parse_ip : List ℕ → Option IpAddr
parse_ip text = whole (or_v6 (read_ipv4_addr text) text)

-- `str::parse::<u8>` and `u16`: an optional plus sign, and digits with a value in range.
abbrev without_plus : List ℕ → List ℕ
without_plus [] = []
without_plus (c ∷ rest) = if c == b'+' then rest else c ∷ rest

unfoldable pub parse_unsigned : ℕ → List ℕ → Option ℕ
unfolding digits to_digit value_of
parse_unsigned max_value text =
    let (ds, rest) = digits 10 (without_plus text) in
    let value = value_of 10 0 ds in
    if is_empty ds || not (is_empty rest) || ltb max_value value then none else some value
