-- ===== src/Doubles.antt =====
-- The numbers of TypeScript (IEEE 754 doubles), as far as the baggage fee computes with them: zero
-- and the positive ones, each as the whole number of units of 2 ^ -1074 that it is. An exact result
-- is rounded to 53 significant bits, ties to even. The overflow to `Infinity` is left out.
use sky_high_core.Common.{
  ℕ, zero, suc, ◌+◌, ◌-◌, ◌*◌, ◌/◌, ◌%◌, ◌^◌, ◌≤◌, ◌<◌, true, false, inl, inr, if◌then◌else◌, ltb,
  arith, Bool-cases,
}

-- One, in units.
abbrev pub unit : ℕ
unit = 2 ^ 1074

abbrev pub double : ℕ → ℕ
double n = n * unit

-- The distance of the doubles around `q` units: the least power of two with less than 2 ^ 53 of
-- them in `q`. Each round halves `q`, so `q` rounds are enough.
pub spacing_from : ℕ → ℕ → ℕ
spacing_from zero q = 1
spacing_from (suc fuel) q = elim (ltb q (2 ^ 53)) [
  | true ↦ 1
  | false ↦ 2 * spacing_from fuel (q / 2)
]

pub spacing : ℕ → ℕ
unfolding spacing_from
spacing q = spacing_from q q

-- To the nearest whole number, ties to even.
pub nearest_even : ℕ → ℕ → ℕ
nearest_even n d =
    let whole = n / d in
    let rest = 2 * (n % d) in
    if ltb rest d then whole else if ltb d rest then whole + 1 else whole + whole % 2

-- The double nearest to `n / d` units.
pub to_double : ℕ → ℕ → ℕ
unfolding spacing nearest_even
to_double n d = let step = spacing (n / d) in step * nearest_even n (d * step)

unfoldable pub subtract : ℕ → ℕ → ℕ
unfolding to_double
subtract a b = to_double (a - b) 1

unfoldable pub multiply : ℕ → ℕ → ℕ
unfolding to_double
multiply a b = to_double (a * b) unit

unfoldable pub divide : ℕ → ℕ → ℕ
unfolding to_double
divide a b = to_double (a * unit) b

-- `Math.round`: to a whole number, halves up.
unfoldable pub round : ℕ → ℕ
round a = double ((2 * a + unit) / (2 * unit))

spacing_from-enough : (fuel q : ℕ) → q ≤ fuel → q < 2 ^ 53 * spacing_from fuel q
unfolding spacing_from
spacing_from-enough zero q enough = omega arith
spacing_from-enough (suc fuel) q enough = elim (Bool-cases (ltb q (2 ^ 53))) [
  | inl small ↦ ground arith
  | inr large ↦ ground (arith, spacing_from-enough fuel (q / 2) (omega arith))
]

-- No double needs more than 53 bits.
spacing-enough : (q : ℕ) → q < 2 ^ 53 * spacing q
unfolding spacing
spacing-enough q = spacing_from-enough q q (omega arith)
