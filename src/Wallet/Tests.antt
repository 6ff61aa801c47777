-- ===== src/Wallet/Tests.antt =====
-- Runs of the wallets, and the theorems at concrete inputs.
-- Code: apps/api/src/modules/wallet
use elonew.Wallet.Entity.{release_loop, is_releasable, release_amount, subtract_cents, add_cents}
use elonew.Money.Amount.{from_cents, subtract, add}
use elonew.Wallet.UseCases.{payment_of}
use elonew.Base.{
  ℕ, String, Bool, true, false, List, [], ◌∷◌, map, Option, none, some, ◌≡◌, ◌≢◌, refl, ◌⊎◌, inl,
  inr, arith, eq_iff, lookup, Rows,
}
use elonew.Base.Int.{ℤ, pos, ◌+ℤ◌}
use elonew.Common.Errors.{ok}
use elonew.Orders.Status.{in_progress}
use elonew.Orders.UseCases.{complete_order}
use elonew.Orders.Repository.{map_extras_from_record}
use elonew.Payments.Status.{held}
use elonew.Platform.Samples.{row, world, payment}
use elonew.Platform.World.{World}
use elonew.Wallet.Balance.{release_credits-IsBalanced, Call}
use elonew.Wallet.Books.{Job, run_jobs, run_jobs-IsBalanced}
use elonew.Wallet.Earnings.{balances, complete_order-locks_share}
use elonew.Wallet.Entity.{
  Wallet, WalletTransaction, WalletReleaseResult, ReleaseInput, release_credits, schedule, credit,
  order_completion,
}
use elonew.Wallet.Ledger.{IsBalanced, sum}
use elonew.Wallet.Release.{release_credits_again}
use elonew.Wallet.UseCases.{CreditCompletedOrderEarningsInput}

abbrev pub earned : WalletTransaction
earned = record {
  id = "t1";
  order_id = some "o1";
  amount = pos 7000;
  type = credit;
  reason = order_completion;
  payout_pix_key = none;
  available_at = 10;
  released_at = none;
  released_by = none;
  created_at = 1;
}

abbrev pub bobs : Wallet
bobs = record {
  booster_id = "bob";
  balance_locked = pos 7000;
  balance_withdrawable = pos 0;
  transactions = earned ∷ [];
}

abbrev matured : ReleaseInput
matured = record { order_id = "o1"; now = 12; source = schedule; ignore_maturity = false }

abbrev bobs_released : Wallet × WalletReleaseResult
bobs_released = (
  record {
    booster_id = "bob";
    balance_locked = pos 0;
    balance_withdrawable = pos 7000;
    transactions = record (earned) { released_at = some 12; released_by = some schedule } ∷ [];
  },
  record { released_amount = pos 7000; released_count = 1 },
)

release_is : release_credits matured bobs ≡ ok bobs_released
unfolding release_credits release_loop is_releasable release_amount subtract_cents from_cents
    subtract elonew.Base.Int.◌-ℤ◌ add_cents add ◌+ℤ◌
release_is = refl

pub bobs-IsBalanced : IsBalanced bobs
unfolding sum ◌+ℤ◌
bobs-IsBalanced = record {
  locked = refl;
  withdrawable = refl;
  positive = (omega arith, tt);
  covered = omega arith;
}

release_credits-IsBalanced_example :
    IsBalanced bobs_released.0
    × (bobs_released.0.balance_locked +ℤ bobs_released.0.balance_withdrawable
        ≡ bobs.balance_locked +ℤ bobs.balance_withdrawable)
    × (bobs_released.0.balance_withdrawable ≡ bobs.balance_withdrawable +ℤ pos 7000)
release_credits-IsBalanced_example =
    release_credits-IsBalanced matured bobs bobs_released bobs-IsBalanced release_is

release_credits_again_example :
    release_credits matured bobs_released.0
    ≡ ok (bobs_released.0, record { released_amount = pos 0; released_count = 0 })
release_credits_again_example =
    release_credits_again matured matured refl (inr (refl, omega arith)) bobs bobs_released
      release_is

abbrev year : List Call
year =
    Call.credit_call "t1"
      (record { order_id = "o1"; amount = pos 7000; available_at = 10; created_at = 1 })
    ∷ Call.release_call matured
    ∷ Call.withdraw_call "t2"
        (record { amount = pos 5000; payout_pix_key = "key"; requested_at = 20 })
    ∷ Call.withdraw_call "t3"
        (record { amount = pos 5000; payout_pix_key = "key"; requested_at = 21 })
    ∷ []

abbrev working : World
working = world (row in_progress (some "bob") none) held

abbrev earnings : CreditCompletedOrderEarningsInput
earnings = record {
  order_id = "o1";
  booster_id = "bob";
  amount = pos 7000;
  completed_at = 1;
  lock_period_in_hours = 24;
}

run_jobs-IsBalanced_example :
    Rows IsBalanced
      (run_jobs
        (Job.credit_earnings "t1" earnings
          ∷ Job.release_by_admin "bob" "o1" 5
          ∷ Job.release_matured "bob" "o1" 9
          ∷ [])
        working).wallets
run_jobs-IsBalanced_example =
    run_jobs-IsBalanced
      (Job.credit_earnings "t1" earnings
        ∷ Job.release_by_admin "bob" "o1" 5
        ∷ Job.release_matured "bob" "o1" 9
        ∷ [])
      working tt

complete_order-locks_share_example :
    balances (lookup "bob" (complete_order "t1" 24 "o1" "bob" 9 working).1.wallets)
    ≡ some (pos 7000, pos 0)
unfolding lookup payment_of map_extras_from_record
complete_order-locks_share_example =
    complete_order-locks_share "t1" "bob" 24 9 7000 working {r = row in_progress (some "bob") none}
      {p = payment held} refl refl refl (ground (arith, eq_iff "bob" "")) refl refl (omega arith)
      (omega arith) refl refl
