-- ===== src/Common/Decimal.antt =====
-- The decimal text of a number, as `format!` writes it.
use north.Common.{ℕ, zero, suc, ◌/◌, ◌%◌, String, ◌==◌, ltb, if◌then◌else◌}
use Prim.Native.String.{◌++◌ as ◌+++◌}

abbrev digit : ℕ → String
digit n =
    if n == 0
    then "0"
    else if n == 1
    then "1"
    else if n == 2
    then "2"
    else if n == 3
    then "3"
    else if n == 4
    then "4"
    else if n == 5
    then "5"
    else if n == 6
    then "6"
    else if n == 7
    then "7"
    else if n == 8
    then "8"
    else "9"

decimal_from : ℕ → ℕ → String
decimal_from zero n = ""
decimal_from (suc left) n =
    let front = decimal_from left (n / 10) in if ltb n 10 then digit n else front +++ digit (n % 10)

unfoldable pub decimal : ℕ → String
unfolding decimal_from
decimal n = decimal_from (suc n) n
