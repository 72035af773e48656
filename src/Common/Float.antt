-- ===== src/Common/Float.antt =====
-- Rust's `f64` where it is finite and not negative: a multiple of the least positive one, 2 ^ -1074,
-- with at most 53 significant bits. Every operation rounds to the nearest, and a tie to the even.
use north.Common.{
  ℕ, zero, suc, ◌+◌, ◌-◌, ◌*◌, ◌/◌, ◌%◌, ◌^◌, ◌≤◌, ◌≡◌, refl, Bool, ◌⊎◌, ap, subst, sym, ◌∙◌, ◌<◌,
  inl, inr, ◌||◌, ◌&&◌, true, false, arith, ltb, ◌==◌, if◌then◌else◌, u64_max, Bool-cases,
}
use Prim.Native.Nat.{min}
use native.Mathlib.Nat.{pow-succ', div-mul-le_self, div-div-eq-div-mul}

abbrev pub F64 : Type 0
F64 = ℕ

-- 1.0
unfoldable pub one : F64
one = 2 ^ 1074

-- By how many bits a number is longer than 53, up to the fuel.
unfoldable pub excess : ℕ → ℕ → ℕ
excess zero n = 0
excess (suc fuel) n = elim (ltb n (2 ^ 53)) [ true ↦ 0 | false ↦ suc (excess fuel (n / 2)) ]

-- The multiple of `unit` that is nearest to `n / d`.
unfoldable pub nearest : ℕ → ℕ → ℕ → ℕ
nearest n d unit =
    let quotient = n / (d * unit) in
    let rest = n % (d * unit) in
    if ltb (d * unit) (2 * rest) || (2 * rest == d * unit && quotient % 2 == 1)
    then (quotient + 1) * unit
    else quotient * unit

-- The `f64` that is nearest to `n / d`, for numbers that are not above the greatest `f64`.
unfoldable pub round : ℕ → ℕ → F64
round n d = nearest n d (2 ^ excess 2045 (n / d))

unfoldable pub add : F64 → F64 → F64
add a b = round (a + b) 1

-- `a - b`, for `b` up to `a`
unfoldable pub sub : F64 → F64 → F64
sub a b = round (a - b) 1

unfoldable pub mul : F64 → F64 → F64
mul a b = round (a * b) one

unfoldable pub div : F64 → F64 → F64
div a b = round (a * one) b

-- A conversion of an integer
unfoldable pub of_integer : ℕ → F64
of_integer n = round (n * one) 1

-- `Duration::as_secs_f64`, of a number of nanoseconds
unfoldable pub as_secs_f64 : ℕ → F64
as_secs_f64 duration =
    add (of_integer (duration / 1000000000))
      (div (of_integer (duration % 1000000000)) (of_integer 1000000000))

-- `x.ceil() as u64`
unfoldable pub ceil_as_u64 : F64 → ℕ
ceil_as_u64 x = min ((x + (one - 1)) / one) u64_max

-- A number that is too long is at least the unit of its last bit, 2 ^ 52 times.
excess-bound : (fuel n : ℕ) → (excess fuel n ≡ 0) ⊎ (2 ^ excess fuel n * 2 ^ 52 ≤ n)
unfolding excess
excess-bound zero n = inl refl
excess-bound (suc fuel) n = elim (Bool-cases (ltb n (2 ^ 53))) [
  | inl small ↦ inl (ap (λ b. elim b [ true ↦ 0 | false ↦ suc (excess fuel (n / 2)) ]) small)
  | inr large ↦
      let e = ap (λ b. elim b [ true ↦ 0 | false ↦ suc (excess fuel (n / 2)) ]) large in
      inr (
        subst (λ k. 2 ^ k * 2 ^ 52 ≤ n) (sym e)
          (longer (excess fuel (n / 2)) n (ground arith) (excess-bound fuel (n / 2))))
]
  where
    longer : (k n : ℕ) → 2 ^ 53 ≤ n → (k ≡ 0) ⊎ (2 ^ k * 2 ^ 52 ≤ n / 2) → 2 ^ suc k * 2 ^ 52 ≤ n
    longer k n big (inl z) = subst (λ j. 2 ^ suc j * 2 ^ 52 ≤ n) (sym z) (omega arith)
    longer k n big (inr h) = let e = pow-succ' 2 k in rw e (omega arith)

-- The fuel is enough for numbers of up to 53 + fuel bits.
excess_enough : (fuel n : ℕ) → n < 2 ^ 53 * 2 ^ fuel → n / 2 ^ excess fuel n < 2 ^ 53
unfolding excess
excess_enough zero n h = ground arith
excess_enough (suc fuel) n h = elim (Bool-cases (ltb n (2 ^ 53))) [
  | inl small ↦
      let e = ap (λ b. elim b [ true ↦ 0 | false ↦ suc (excess fuel (n / 2)) ]) small in
      subst (λ k. n / 2 ^ k < 2 ^ 53) (sym e) (ground arith)
  | inr large ↦
      let e = ap (λ b. elim b [ true ↦ 0 | false ↦ suc (excess fuel (n / 2)) ]) large in
      let shorter : n / 2 < 2 ^ 53 * 2 ^ fuel = halved (pow-succ' 2 fuel) in
      let same =
        ap (λ d. n / d) (pow-succ' 2 (excess fuel (n / 2)))
        ∙ sym (div-div-eq-div-mul n 2 (2 ^ excess fuel (n / 2))) in
      subst (λ k. n / 2 ^ k < 2 ^ 53) (sym e)
        (subst (λ q. q < 2 ^ 53) (sym same) (excess_enough fuel (n / 2) shorter))
]
  where
    halved : 2 ^ suc fuel ≡ 2 * 2 ^ fuel → n / 2 < 2 ^ 53 * 2 ^ fuel
    halved e = omega (arith, e, h)

nearest-le : (n unit : ℕ) → nearest n 1 unit ≤ n + unit
unfolding nearest
nearest-le n unit =
    let below = div-mul-le_self n (1 * unit) in
    let one_unit : 1 * unit ≡ unit = omega arith in
    either_multiple
      (ltb (1 * unit) (2 * (n % (1 * unit)))
        || (2 * (n % (1 * unit)) == 1 * unit && (n / (1 * unit)) % 2 == 1))
      (n / (1 * unit)) (subst (λ u. n / (1 * unit) * u ≤ n) one_unit below)
  where
    either_multiple :
        (b : Bool) (q : ℕ) → q * unit ≤ n → (if b then (q + 1) * unit else q * unit) ≤ n + unit
    either_multiple true q h = grind arith
    either_multiple false q h = omega arith

nearest-one : (n : ℕ) → nearest n 1 (2 ^ 0) ≡ n
unfolding nearest
nearest-one n = ground arith

-- Rounding a number of at most 2 ^ 52 ones adds less than one.
round-le : (n : ℕ) → n ≤ 2 ^ 52 * one → round n 1 ≤ n + one
unfolding round
round-le n h = by_excess (excess 2045 (n / 1)) (excess-bound 2045 (n / 1))
  where
    by_excess : (k : ℕ) → (k ≡ 0) ⊎ (2 ^ k * 2 ^ 52 ≤ n / 1) → nearest n 1 (2 ^ k) ≤ n + one
    by_excess k (inl exact) =
        subst (λ j. nearest n 1 (2 ^ j) ≤ n + one) (sym exact)
          (let e = nearest-one n in omega (arith, e))
    by_excess k (inr long) = let near = nearest-le n (2 ^ k) in omega (arith, near, long)

-- A difference is not above the number that one is taken from.
pub sub-le : (t : F64) → t ≤ 2 ^ 32 * one → one ≤ t → sub t one ≤ t
unfolding sub
sub-le t h le = let near = round-le (t - one) (omega arith) in omega (arith, near)
