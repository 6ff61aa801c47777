-- ===== src/Money/Double.antt =====
-- The part of IEEE 754 binary64 that packages/shared/src/money/money.ts and its callers compute
-- with: a finite number that is not negative, as a numerator over a power of two; the product of
-- two such numbers and a quotient, each rounded to 53 bits, ties to the even neighbour; and
-- `Math.round`. Overflow and subnormal numbers do not arise at the sizes used here.
use elonew.Base.{ℕ, zero, suc, ◌+◌, ◌*◌, ◌/◌, ◌%◌, ◌^◌, ◌&&◌, ◌||◌, ltb, leb, ◌==◌, if◌then◌else◌}

-- The value is `mant / 2 ^ scale`.
pub record Double : Type 0 where
  pub mant : ℕ
  pub scale : ℕ

-- a / b to the nearest whole number, ties to even.
unfoldable pub nearest_even : ℕ → ℕ → ℕ
nearest_even a b =
    if ltb b (2 * (a % b)) || (2 * (a % b) == b && a / b % 2 == 1) then a / b + 1 else a / b

-- How many bits of `p` lie below its first 53, for `p < 2 ^ (53 + fuel)`.
unfoldable pub excess : ℕ → ℕ → ℕ
excess zero p = 0
excess (suc f) p = let rest = suc (excess f (p / 2)) in if ltb p (2 ^ 53) then 0 else rest

-- `p` rounded to 53 significant bits. A product of two 53-bit numbers has 53 bits to spare.
unfoldable pub round_53 : ℕ → ℕ
round_53 p = nearest_even p (2 ^ excess 64 p) * 2 ^ excess 64 p

-- `x * y`
unfoldable pub mul_double : Double → Double → Double
mul_double x y = record { mant = round_53 (x.mant * y.mant); scale = x.scale + y.scale }

-- How often `num` is doubled until `num / den` has 53 bits before the point.
unfoldable pub scale_up : ℕ → ℕ → ℕ → ℕ
scale_up zero num den = 0
scale_up (suc f) num den =
    let rest = suc (scale_up f (num * 2) den) in if leb (2 ^ 52 * den) num then 0 else rest

-- `x / n` for a whole `n`, where the quotient lies below 2 ^ 53; 1100 doublings reach the
-- smallest normal number.
unfoldable pub div_double : Double → ℕ → Double
div_double x n =
    let den = 2 ^ x.scale * n in
    let e = scale_up 1100 x.mant den in
    if x.mant == 0
    then record { mant = 0; scale = 0 }
    else record { mant = nearest_even (x.mant * 2 ^ e) den; scale = e }

-- A whole number below 2 ^ 53 is its own double.
abbrev pub double_of : ℕ → Double
double_of n = record { mant = n; scale = 0 }

-- `Math.round` on a number that is not negative: the nearest whole number, ties upwards.
unfoldable pub math_round : Double → ℕ
math_round x = (2 * x.mant + 2 ^ x.scale) / (2 * 2 ^ x.scale)

-- The literal 0.7: the double nearest to seven tenths lies below it.
abbrev pub seven_tenths : Double
seven_tenths = record { mant = 6305039478318694; scale = 53 }
