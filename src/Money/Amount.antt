-- ===== src/Money/Amount.antt =====
-- packages/shared/src/money/money.ts. `Money` wraps a whole number of cents; whatever leaves the
-- range of the safe integers throws. The exact sum and the sum that JavaScript rounds leave that
-- range together, so sums are exact here.
use elonew.Base.{ℕ, ltb, Option, none, some, if◌then◌else◌}
use elonew.Base.Int.{ℤ, pos, negsuc, magnitude, sub_ℕ, ◌+ℤ◌, ◌-ℤ◌, leb_ℤ}
use elonew.Common.Errors.{Result, ok, err, invalid_money}
use elonew.Money.Double.{Double, double_of, mul_double, math_round}

pub record Money : Type 0 where
  pub cents : ℤ

-- `Number.MAX_SAFE_INTEGER`
abbrev pub max_safe_integer : ℕ
max_safe_integer = 9007199254740991

unfoldable pub from_cents : ℤ → Result Money
from_cents cents =
    if ltb max_safe_integer (magnitude cents)
    then err invalid_money
    else ok (record { cents = cents })

abbrev pub money_zero : Money
money_zero = record { cents = pos 0 }

unfoldable pub add : Money → Money → Result Money
unfolding from_cents
add a b = from_cents (a.cents +ℤ b.cents)

unfoldable pub subtract : Money → Money → Result Money
unfolding from_cents
subtract a b = from_cents (a.cents -ℤ b.cents)

unfoldable pub min : Money → Money → Money
min a b = if leb_ℤ a.cents b.cents then a else b

unfoldable pub max : Money → Money → Money
max a b = if leb_ℤ b.cents a.cents then a else b

-- `roundHalfAwayFromZero` of `sign * x`, where the sign is that of an integer.
unfoldable pub round_half_away_from_zero : ℤ → Double → ℤ
unfolding math_round
round_half_away_from_zero (pos _) x = pos (math_round x)
round_half_away_from_zero (negsuc _) x = sub_ℕ 0 (math_round x)

-- `none` is a rate that is not finite; a finite rate is not negative here.
unfoldable pub percentage : Option Double → Money → Result Money
unfolding from_cents round_half_away_from_zero mul_double
percentage none a = err invalid_money
percentage (some rate) a =
    from_cents (round_half_away_from_zero a.cents (mul_double (double_of (magnitude a.cents)) rate))

-- `none` is an amount that is not finite.
unfoldable pub from_decimal : Option Double → Result Money
unfolding from_cents round_half_away_from_zero mul_double
from_decimal none = err invalid_money
from_decimal (some x) =
    from_cents (round_half_away_from_zero (pos 0) (mul_double x (double_of 100)))
