-- ===== src/Wallet/UseCases.antt =====
-- The use cases of apps/api/src/modules/wallet/application/use-cases, without their log lines. The
-- transactions of a wallet come back in the order in which they were saved.
use mathlib.Core.Option
use elonew.Base.{
  ℕ, ◌+◌, ◌*◌, ◌==◌, String, Option, none, some, is_some, or_else, if◌then◌else◌, lookup, insert,
  Dict, find, same,
}
use elonew.Base.Int.{ℤ}
use elonew.Common.Errors.{
  ok, wallet_not_found, wallet_order_completion_credit_not_found,
  wallet_order_completion_already_released,
}
use elonew.Common.Action.{Action, ◌>>=◌, ◌>>◌, pure, gets, modify, attempt, or_throw, throw_if}
use elonew.Wallet.Entity.{
  Wallet, WithdrawInput, create, credit_locked, withdraw, find_order_completion_credit,
  release_order_completion_funds, force_release_order_completion_funds,
}
use elonew.Payments.Entity.{Payment}
use elonew.Platform.World.{World, release_scheduled, emit}

unfoldable pub find_by_booster_id : String → Action World (Option Wallet)
find_by_booster_id booster w = (ok (lookup booster w.wallets), w)

unfoldable pub save : Wallet → Action World (Unit {0})
save wallet w = (ok tt, record w { wallets = insert wallet.booster_id wallet w.wallets })

unfoldable pub schedule_release : String → String → ℕ → Action World (Unit {0})
unfolding emit
schedule_release order booster available_at =
    modify (emit (release_scheduled order booster available_at))

pub record CreditCompletedOrderEarningsInput : Type 0 where
  pub order_id : String
  pub booster_id : String
  pub amount : ℤ
  pub completed_at : ℕ
  pub lock_period_in_hours : ℕ

-- credit-completed-order-earnings.use-case.ts; the id is that of the new transaction.
unfoldable pub credit_completed_order_earnings :
    String → CreditCompletedOrderEarningsInput → Action World (Unit {0})
unfolding find_by_booster_id create save schedule_release
credit_completed_order_earnings id input = do
  found ← find_by_booster_id input.booster_id
  let wallet = or_else found (create input.booster_id)
  elim (find_order_completion_credit input.order_id wallet) [
    | some existing ↦ schedule_release input.order_id input.booster_id existing.available_at
    | none ↦ do
      let available_at = input.completed_at + input.lock_period_in_hours * 60 * 60 * 1000
      credited ← attempt (
          credit_locked id
            (record {
              order_id = input.order_id;
              amount = input.amount;
              available_at = available_at;
              created_at = input.completed_at;
            })
            wallet)
      save credited
      schedule_release input.order_id input.booster_id available_at
  ]

pub data SkippedReason : Type 0 where
  wallet_missing credit_missing already_released not_matured : SkippedReason

pub data ReleaseOutcome : Type 0 where
  released : ℤ → ReleaseOutcome
  skipped : SkippedReason → ReleaseOutcome

-- release-matured-wallet-funds.use-case.ts. The credit is the object that the release changes, so
-- its release date is read after the release; where nothing was released it has not changed.
unfoldable pub release_matured_wallet_funds : String → String → ℕ → Action World ReleaseOutcome
unfolding find_by_booster_id save
release_matured_wallet_funds booster order now = do
  found ← find_by_booster_id booster
  elim found [
    | none ↦ pure (skipped wallet_missing)
    | some wallet ↦ elim (find_order_completion_credit order wallet) [
      | none ↦ pure (skipped credit_missing)
      | some credit ↦ do
        (wallet', result) ← attempt (release_order_completion_funds order now wallet)
        if result.released_count == 0
            then pure
                (skipped (if is_some credit.released_at then already_released else not_matured))
            else (do save wallet'; pure (released result.released_amount))
    ]
  ]

pub record ForceReleaseOutput : Type 0 where
  pub released_amount : ℤ
  pub balance_withdrawable : ℤ

-- force-release-order-completion-funds.use-case.ts
unfoldable pub force_release : String → String → ℕ → Action World ForceReleaseOutput
unfolding find_by_booster_id save
force_release booster order now = do
  found ← find_by_booster_id booster
  wallet ← or_throw found wallet_not_found
  credit ←
      or_throw (find_order_completion_credit order wallet) wallet_order_completion_credit_not_found
  throw_if (is_some credit.released_at) wallet_order_completion_already_released
  (wallet', result) ← attempt (force_release_order_completion_funds order now wallet)
  save wallet'
  pure (record {
    released_amount = result.released_amount;
    balance_withdrawable = wallet'.balance_withdrawable;
  })

-- request-withdrawal.use-case.ts; the id is that of the new transaction.
unfoldable pub request_withdrawal : String → String → WithdrawInput → Action World (Unit {0})
unfolding find_by_booster_id create save
request_withdrawal id booster input = do
  found ← find_by_booster_id booster
  wallet ← attempt (withdraw id input (or_else found (create booster)))
  save wallet

-- apps/api/src/modules/wallet/infrastructure/adapters/order-completion-earnings-from-wallet.adapter.ts
unfoldable pub payment_of : String → Dict Payment → Option Payment
payment_of order ps =
    Option.map (λ e. e.1) (find (λ (e : String × Payment). same e.1.order_id order) ps)

unfoldable pub credit_earnings_of_payment :
    String → ℕ → String → String → ℕ → Action World (Unit {0})
unfolding credit_completed_order_earnings
credit_earnings_of_payment id lock_period order booster completed_at = do
  payment ← gets (λ w. payment_of order w.payments)
  elim payment [
    | none ↦ pure tt
    | some p ↦ credit_completed_order_earnings id (record {
      order_id = order;
      booster_id = booster;
      amount = p.booster_amount;
      completed_at = completed_at;
      lock_period_in_hours = lock_period;
    })
  ]
