-- ===== src/Money/Share.antt =====
-- The booster's share of a payment, as the code computes it in floating point.
-- Code: packages/shared/src/money/money.ts (`percentage`),
-- apps/api/src/modules/payments/domain/payment.entity.ts (`BOOSTER_SHARE_RATE`)
use elonew.Base.{ℕ, ◌+◌, ◌*◌, ◌^◌, ◌≤◌, ◌≡◌, some, arith}
use elonew.Base.Int.{pos}
use elonew.Common.Errors.{ok}
use elonew.Money.Double.{round_53, mul_double, math_round, double_of, seven_tenths}
use elonew.Money.Rounding.{round_53_error, math_round_error}
use elonew.Money.Amount.{max_safe_integer, from_cents, percentage}

abbrev pub share_of : ℕ → ℕ
share_of n = math_round (mul_double (double_of n) seven_tenths)

-- Ten times the share lies within five of seven times the amount.
pub share_of_near :
    (n : ℕ) → n ≤ 2 ^ 49 → (10 * share_of n ≤ 7 * n + 5) × (7 * n ≤ 10 * share_of n + 5)
unfolding mul_double
share_of_near n h = omega (
  arith,
  round_53_error (n * 6305039478318694),
  math_round_error (round_53 (n * 6305039478318694)) 53,
)

share_of-le : (n : ℕ) → n ≤ 2 ^ 49 → share_of n ≤ n
share_of-le n h = omega (arith, share_of_near n h)

pub from_cents_pos :
    (n : ℕ) → n ≤ max_safe_integer → from_cents (pos n) ≡ ok (record { cents = pos n })
unfolding from_cents
from_cents_pos n h = ground arith

-- On safe integers the rate of seven tenths never throws, and gives the share.
pub percentage-share_of :
    (n : ℕ)
    → n ≤ 2 ^ 49
    → percentage (some seven_tenths) (record { cents = pos n })
      ≡ ok (record { cents = pos (share_of n) })
unfolding percentage
percentage-share_of n h = from_cents_pos (share_of n) (omega (arith, share_of-le n h))
