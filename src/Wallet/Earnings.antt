-- ===== src/Wallet/Earnings.antt =====
-- Crediting the earnings of an order.
-- Code: apps/api/src/modules/wallet/application/use-cases/credit-completed-order-earnings
use elonew.Base.{
  ℕ, ◌+◌, ◌*◌, ◌≤◌, ◌<◌, String, Bool, true, List, [], ◌∷◌, ◌++◌, Option, none, some, or_else, find,
  ◌≡◌, ◌≢◌, refl, arith, eq_iff, lookup, Option-cases, Bool-cases, lookup-insert_self, inl, inr,
}
use elonew.Base.Int.{ℤ, pos, ◌+ℤ◌}
use elonew.Common.Errors.{ok, Result-cases}
use elonew.Money.Amount.{from_cents, add, max_safe_integer}
use elonew.Orders.Status.{in_progress}
use elonew.Orders.Entity.{complete}
use elonew.Orders.Repository.{OrderRow, IsReadable, order_of, map_order_from_record}
use elonew.Orders.UseCases.{complete_order}
use elonew.Orders.Ports.{publish, create_order_event, save}
use elonew.Payments.Entity.{Payment}
use elonew.Platform.World.{World, order_completed}
use elonew.Wallet.Entity.{
  Wallet, CreditLockedInput, create, credit_locked, add_cents, credit_transaction,
  find_order_completion_credit,
}
use elonew.Wallet.Balance.{credit_locked-eq}
use elonew.Wallet.UseCases.{
  CreditCompletedOrderEarningsInput, credit_completed_order_earnings, credit_earnings_of_payment,
  payment_of,
}

find-append {ℓ} :
    {A : Type ℓ} (p : A → Bool) (xs : List A) (y : A)
    → find p xs ≡ none
    → p y ≡ true
    → find p (xs ++ (y ∷ [])) ≡ some y
find-append p [] y absent fits = ground arith
find-append p (x ∷ xs) y absent fits = elim (Bool-cases (p x)) [
  | inl hit ↦ ground arith
  | inr miss ↦ rw miss (find-append p xs y (ground arith) fits)
]

-- A credited order has its credit in the wallet.
credited-find :
    (id : String) (new : CreditLockedInput) (w : Wallet) {w' : Wallet}
    → find_order_completion_credit new.order_id w ≡ none
    → credit_locked id new w ≡ ok w'
    → (find_order_completion_credit new.order_id w' ≡ some (credit_transaction id new))
      × (w'.booster_id ≡ w.booster_id)
unfolding find_order_completion_credit
credited-find id new w absent done =
    let (positive, e) = credit_locked-eq id new w done in
    rw e (
      find-append _ w.transactions (credit_transaction id new) absent
          (ground (arith, eq_iff new.order_id new.order_id)),
      refl,
    )

-- The earnings of an order are credited to its booster once: after a call that succeeds, another call
-- for the same order and booster changes no wallet, whatever amount and lock period it brings. The
-- row of the booster's wallet, if there is one, names the booster.
pub credit_earnings_once :
    (id id' : String) (i i' : CreditCompletedOrderEarningsInput) (w : World)
    → (or_else (lookup i.booster_id w.wallets) (create i.booster_id)).booster_id ≡ i.booster_id
    → (credit_completed_order_earnings id i w).0 ≡ ok tt
    → i'.order_id ≡ i.order_id
    → i'.booster_id ≡ i.booster_id
    → (credit_completed_order_earnings id' i' (credit_completed_order_earnings id i w).1).1.wallets
      ≡ (credit_completed_order_earnings id i w).1.wallets
unfolding credit_completed_order_earnings
credit_earnings_once id id' i i' w own done same_order same_booster =
    let wallet = or_else (lookup i.booster_id w.wallets) (create i.booster_id) in
    let new : CreditLockedInput = record {
      order_id = i.order_id;
      amount = i.amount;
      available_at = i.completed_at + i.lock_period_in_hours * 60 * 60 * 1000;
      created_at = i.completed_at;
    } in
    elim (Option-cases (find_order_completion_credit i.order_id wallet)) [
      | inr (t, known) ↦ ground arith
      | inl fresh ↦ elim (Result-cases (credit_locked id new wallet)) [
        | inl (wal, e) ↦
            let facts = credited-find id new wallet fresh e in
            let stored = lookup-insert_self i.booster_id wal w.wallets in ground arith
        | inr (_, e) ↦ ground arith
      ]
    ]

-- What a wallet holds locked, and what can be withdrawn from it.
abbrev pub balances : Option Wallet → Option (ℤ × ℤ)
balances none = none
balances (some w) = some (w.balance_locked, w.balance_withdrawable)

-- A booster's first credit.
first_wallet : String → String → CreditLockedInput → Wallet
first_wallet id booster new = record {
  booster_id = booster;
  balance_locked = new.amount;
  balance_withdrawable = pos 0;
  transactions = credit_transaction id new ∷ [];
}

create-find : (order booster : String) → find_order_completion_credit order (create booster) ≡ none
unfolding find_order_completion_credit create
create-find order booster = refl

first_credit :
    (id booster : String) (amount : ℕ) (new : CreditLockedInput)
    → new.amount ≡ pos amount
    → 0 < amount
    → amount ≤ max_safe_integer
    → credit_locked id new (create booster) ≡ ok (first_wallet id booster new)
unfolding create credit_locked add_cents from_cents add first_wallet ◌+ℤ◌
first_credit id booster amount new is positive safe = ground arith

credit-balances :
    (tx order booster : String) (period now amount : ℕ) (w : World) {p : Payment}
    → payment_of order w.payments ≡ some p
    → p.booster_amount ≡ pos amount
    → 0 < amount
    → amount ≤ max_safe_integer
    → lookup booster w.wallets ≡ none
    → balances (lookup booster (credit_earnings_of_payment tx period order booster now w).1.wallets)
      ≡ some (p.booster_amount, pos 0)
unfolding credit_earnings_of_payment credit_completed_order_earnings first_wallet
credit-balances tx order booster period now amount w {p} paid is positive safe fresh =
    let new : CreditLockedInput = record {
      order_id = order;
      amount = p.booster_amount;
      available_at = now + period * 60 * 60 * 1000;
      created_at = now;
    } in
    let locked = first_credit tx booster amount new is positive safe in
    let absent = create-find order booster in
    let own : (first_wallet tx booster new).booster_id ≡ booster = refl in
    let stored = lookup-insert_self booster (first_wallet tx booster new) w.wallets in ground arith

-- A completion that is allowed ends with the credit, in the same wallets and payments.
complete_order-credit :
    (tx booster : String) (period now : ℕ) (w : World) {r : OrderRow}
    → lookup r.id w.orders ≡ some r
    → r.status ≡ in_progress
    → r.booster_id ≡ some booster
    → booster ≢ ""
    → IsReadable r
    → (w' : World) × (w'.wallets ≡ w.wallets)
      × (w'.payments ≡ w.payments)
      × (complete_order tx period r.id booster now w
          ≡ credit_earnings_of_payment tx period r.id booster now w')
unfolding complete_order
complete_order-credit tx booster period now w {r} found st owner filled readable =
    elim (Result-cases (complete now (order_of r r.extras))) [
      | inl (o, e) ↦
          let kept : (o.id ≡ r.id) × (o.booster_id ≡ r.booster_id) =
            unfold complete map_order_from_record in ground arith in
          (
            (publish (record (create_order_event order_completed o) { booster_id = some booster })
                (save o w).1).1,
            refl,
            refl,
            unfold map_order_from_record in
                ground (arith, eq_iff booster booster, eq_iff booster ""),
          )
      | inr (x, e) ↦ unfold complete map_order_from_record in ground arith
    ]

-- Completing an order whose extras are of known types, in progress with a booster, who is not the
-- empty id and has no wallet, locks the booster's part of the order's payment, a positive amount of
-- at most the largest safe integer, in a new wallet from which nothing can be withdrawn yet.
pub complete_order-locks_share :
    (tx booster : String) (period now amount : ℕ) (w : World) {r : OrderRow} {p : Payment}
    → lookup r.id w.orders ≡ some r
    → r.status ≡ in_progress
    → r.booster_id ≡ some booster
    → booster ≢ ""
    → payment_of r.id w.payments ≡ some p
    → p.booster_amount ≡ pos amount
    → 0 < amount
    → amount ≤ max_safe_integer
    → lookup booster w.wallets ≡ none
    → IsReadable r
    → balances (lookup booster (complete_order tx period r.id booster now w).1.wallets)
      ≡ some (p.booster_amount, pos 0)
complete_order-locks_share tx booster period now amount w {r} {p} found st owner filled paid share
      positive safe fresh readable =
    let (w', ws, ps, e) =
      complete_order-credit tx booster period now w found st owner filled readable in
    rw e (
      credit-balances tx r.id booster period now amount w' {p = p} (rw ps paid) share positive safe
        (rw ws fresh))
