-- ===== src/Wallet/Books.antt =====
-- The wallets of all boosters under the wallet's use cases, in any order.
-- Code: apps/api/src/modules/wallet/application/use-cases
use elonew.Base.{
  ℕ, String, true, false, List, [], ◌∷◌, or_else, ◌≡◌, inl, inr, arith, lookup, insert, Rows,
  lookup-Rows, insert-Rows, Option-cases, Bool-cases, ◌==◌, ◌+◌, ◌*◌, is_some,
}
use elonew.Common.Errors.{Result-cases}
use elonew.Platform.World.{World}
use elonew.Wallet.Entity.{
  Wallet, WithdrawInput, CreditLockedInput, ReleaseInput, schedule, admin,
  find_order_completion_credit, create, credit_locked, withdraw, release_credits,
  release_order_completion_funds, force_release_order_completion_funds,
}
use elonew.Wallet.Ledger.{IsBalanced}
use elonew.Wallet.Balance.{
  create-IsBalanced, credit_locked-IsBalanced, withdraw-IsBalanced, release_credits-IsBalanced,
}
use elonew.Wallet.UseCases.{
  CreditCompletedOrderEarningsInput, credit_completed_order_earnings, release_matured_wallet_funds,
  force_release, request_withdrawal,
}

-- A use case of the wallet module, with the ids that it draws.
pub data Job : Type 0 where
  credit_earnings : String → CreditCompletedOrderEarningsInput → Job
  release_matured : String → String → ℕ → Job
  release_by_admin : String → String → ℕ → Job
  request : String → String → WithdrawInput → Job

unfoldable pub run_job : Job → World → World
run_job (Job.credit_earnings id input) w = (credit_completed_order_earnings id input w).1
run_job (Job.release_matured booster order now) w =
    (release_matured_wallet_funds booster order now w).1
run_job (Job.release_by_admin booster order now) w = (force_release booster order now w).1
run_job (Job.request id booster input) w = (request_withdrawal id booster input w).1

unfoldable pub run_jobs : List Job → World → World
run_jobs [] w = w
run_jobs (j ∷ js) w = run_jobs js (run_job j w)

-- What a use case leaves in the table of wallets: the same rows, or one balanced row more.
data Written (w w' : World) : Type 0 where
  same_rows : w'.wallets ≡ w.wallets → Written w w'
  one_row :
      (wal : Wallet)
      → IsBalanced wal
      → w'.wallets ≡ insert wal.booster_id wal w.wallets
      → Written w w'

Written-Rows :
    (w w' : World) → Rows IsBalanced w.wallets → Written w w' → Rows IsBalanced w'.wallets
Written-Rows w w' all (same_rows e) = rw e all
Written-Rows w w' all (one_row wal b e) =
    rw e (insert-Rows IsBalanced wal.booster_id wal w.wallets b all)

-- The wallet that a use case starts from.
start-IsBalanced :
    (booster : String) (w : World)
    → Rows IsBalanced w.wallets
    → IsBalanced (or_else (lookup booster w.wallets) (create booster))
start-IsBalanced booster w all = elim (Option-cases (lookup booster w.wallets)) [
  | inl e ↦ rw e (create-IsBalanced booster)
  | inr (wal, e) ↦ rw e (lookup-Rows IsBalanced booster w.wallets all e)
]

request-Written :
    (id booster : String) (input : WithdrawInput) (w : World)
    → Rows IsBalanced w.wallets
    → Written w (request_withdrawal id booster input w).1
unfolding request_withdrawal
request-Written id booster input w all =
    let wallet = or_else (lookup booster w.wallets) (create booster) in
    elim (Result-cases (withdraw id input wallet)) [
      | inl (wal, e) ↦
          one_row wal (withdraw-IsBalanced id input wallet (start-IsBalanced booster w all) e)
            (ground arith)
      | inr (_, e) ↦ same_rows (ground arith)
    ]

credit-Written :
    (id : String) (input : CreditCompletedOrderEarningsInput) (w : World)
    → Rows IsBalanced w.wallets
    → Written w (credit_completed_order_earnings id input w).1
unfolding credit_completed_order_earnings
credit-Written id input w all =
    let wallet = or_else (lookup input.booster_id w.wallets) (create input.booster_id) in
    let new : CreditLockedInput = record {
      order_id = input.order_id;
      amount = input.amount;
      available_at = input.completed_at + input.lock_period_in_hours * 60 * 60 * 1000;
      created_at = input.completed_at;
    } in
    elim (Option-cases (find_order_completion_credit input.order_id wallet)) [
      | inr (t, known) ↦ same_rows (ground arith)
      | inl fresh ↦ elim (Result-cases (credit_locked id new wallet)) [
        | inl (wal, e) ↦
            one_row wal
              (credit_locked-IsBalanced id new wallet (start-IsBalanced input.booster_id w all) e)
              (ground arith)
        | inr (_, e) ↦ same_rows (ground arith)
      ]
    ]

matured-Written :
    (booster order : String) (now : ℕ) (w : World)
    → Rows IsBalanced w.wallets
    → Written w (release_matured_wallet_funds booster order now w).1
unfolding release_matured_wallet_funds release_order_completion_funds
matured-Written booster order now w all = elim (Option-cases (lookup booster w.wallets)) [
  | inl e ↦ same_rows (ground arith)
  | inr (wallet, e) ↦
      let how : ReleaseInput = record {
        order_id = order;
        now = now;
        source = schedule;
        ignore_maturity = false;
      } in
      let b = lookup-Rows IsBalanced booster w.wallets all e in
      elim (Result-cases (release_credits how wallet)) [
        | inl (o, k) ↦ elim (Option-cases (find_order_completion_credit order wallet)) [
          | inl n ↦ same_rows (ground arith)
          | inr (t, n) ↦ elim (Bool-cases (o.1.released_count == 0)) [
            | inl z ↦ same_rows (ground arith)
            | inr z ↦ one_row o.0 (release_credits-IsBalanced how wallet o b k).0 (ground arith)
          ]
        ]
        | inr (_, k) ↦ same_rows (ground arith)
      ]
]

forced-Written :
    (booster order : String) (now : ℕ) (w : World)
    → Rows IsBalanced w.wallets
    → Written w (force_release booster order now w).1
unfolding force_release force_release_order_completion_funds
forced-Written booster order now w all = elim (Option-cases (lookup booster w.wallets)) [
  | inl e ↦ same_rows (ground arith)
  | inr (wallet, e) ↦
      let how : ReleaseInput = record {
        order_id = order;
        now = now;
        source = admin;
        ignore_maturity = true;
      } in
      let b = lookup-Rows IsBalanced booster w.wallets all e in
      elim (Option-cases (find_order_completion_credit order wallet)) [
        | inl n ↦ same_rows (ground arith)
        | inr (t, n) ↦ elim (Bool-cases (is_some t.released_at)) [
          | inl done ↦ same_rows (ground arith)
          | inr locked ↦ elim (Result-cases (release_credits how wallet)) [
            | inl (o, k) ↦
                one_row o.0 (release_credits-IsBalanced how wallet o b k).0 (ground arith)
            | inr (_, k) ↦ same_rows (ground arith)
          ]
        ]
      ]
]

run_job-Rows :
    (j : Job) (w : World) → Rows IsBalanced w.wallets → Rows IsBalanced (run_job j w).wallets
unfolding run_job
run_job-Rows (Job.credit_earnings id input) w all =
    Written-Rows w _ all (credit-Written id input w all)
run_job-Rows (Job.release_matured booster order now) w all =
    Written-Rows w _ all (matured-Written booster order now w all)
run_job-Rows (Job.release_by_admin booster order now) w all =
    Written-Rows w _ all (forced-Written booster order now w all)
run_job-Rows (Job.request id booster input) w all =
    Written-Rows w _ all (request-Written id booster input w all)

-- Whatever credits, scheduled and forced releases and withdrawals the boosters' wallets go through, in
-- any order and with refused ones among them, every wallet of the table stays balanced, if every one
-- was.
pub run_jobs-IsBalanced :
    (js : List Job) (w : World)
    → Rows IsBalanced w.wallets
    → Rows IsBalanced (run_jobs js w).wallets
unfolding run_jobs
run_jobs-IsBalanced [] w all = all
run_jobs-IsBalanced (j ∷ js) w all = run_jobs-IsBalanced js (run_job j w) (run_job-Rows j w all)
