-- ===== src/Orders/UseCases.antt =====
-- The use cases of apps/api/src/modules/orders/application/use-cases that change an order, without
-- their log lines. The publisher, the chat and the emails are wired in the API's module, so they
-- are always there.
use elonew.Base.{
  ℕ, String, Option, none, some, same, holds_text, truthy, not, ◌&&◌, if◌then◌else◌, lookup,
}
use elonew.Common.Errors.{
  order_not_found, order_credentials_password_mismatch, order_credentials_not_found,
}
use elonew.Common.Action.{Action, ◌>>=◌, ◌>>◌, pure, gets, modify, attempt, or_throw, throw_if}
use elonew.Orders.Status.{awaiting_payment, in_progress, is_status}
use elonew.Orders.Entity.{
  Order, OrderCredentials, confirm_payment, reject_by_booster, accept_by_booster, assign_booster,
  clear_booster_assignment, complete, cancel, set_credentials, clear_credentials,
}
use elonew.Orders.Repository.{OrderRow}
use elonew.Orders.Ports.{
  find_by_id, find_by_id_for_client, save, save_booster_rejection, save_credentials,
  create_order_event, publish, send_order_email,
}
use elonew.Wallet.UseCases.{credit_earnings_of_payment}
use elonew.Platform.World.{
  World, order_paid, order_credentials_saved, order_accepted, order_rejected, order_completed,
  order_cancelled, paid_email, booster_assigned_email, chat_created, coupon_confirmed,
  credentials_revealed, emit,
}

-- accept-order.use-case.ts
unfoldable pub accept_order : String → String → ℕ → Action World (Unit {0})
unfolding find_by_id save publish create_order_event send_order_email emit
accept_order id booster deadline = do
  found ← find_by_id id
  order ← or_throw found order_not_found
  throw_if (truthy order.booster_id && not (holds_text order.booster_id booster)) order_not_found
  accepted ← attempt (
      accept_by_booster deadline
        (if truthy order.booster_id then order else assign_booster booster order))
  save accepted
  modify (emit (chat_created accepted.id))
  publish (create_order_event order_accepted accepted)
  send_order_email booster_assigned_email accepted

-- reject-order.use-case.ts, with a repository that has `saveBoosterRejection`
unfoldable pub reject_order : String → String → Action World (Unit {0})
unfolding find_by_id save_booster_rejection publish create_order_event
reject_order id booster = do
  found ← find_by_id id
  order ← or_throw found order_not_found
  throw_if (truthy order.booster_id && not (holds_text order.booster_id booster)) order_not_found
  rejected ← attempt (reject_by_booster order)
  let freed =
      if holds_text rejected.booster_id booster then clear_booster_assignment rejected else rejected
  save_booster_rejection freed booster
  publish (record (create_order_event order_rejected freed) { booster_id = some booster })

-- complete-order.use-case.ts; the id is that of the wallet transaction that it may create.
unfoldable pub complete_order : String → ℕ → String → String → ℕ → Action World (Unit {0})
unfolding find_by_id save publish create_order_event
complete_order transaction_id lock_period id booster now = do
  found ← find_by_id id
  order ← or_throw found order_not_found
  throw_if (not (holds_text order.booster_id booster)) order_not_found
  completed ← attempt (complete now order)
  save completed
  publish (record (create_order_event order_completed completed) { booster_id = some booster })
  if truthy completed.booster_id
      then credit_earnings_of_payment transaction_id lock_period completed.id booster now
      else pure tt

-- cancel-order.use-case.ts
unfoldable pub cancel_order : String → String → Action World (Unit {0})
unfolding find_by_id_for_client save publish create_order_event
cancel_order id client = do
  found ← find_by_id_for_client id client
  order ← or_throw found order_not_found
  cancelled ← attempt (cancel order)
  save cancelled
  publish (create_order_event order_cancelled cancelled)

-- `recordCouponUsage`
unfoldable pub record_coupon_usage : Order → Action World (Unit {0})
unfolding emit
record_coupon_usage order = elim order.coupon_id [
  | none ↦ pure tt
  | some coupon ↦ if same coupon "" then pure tt else do
    code ← gets (λ w. lookup coupon w.coupon_codes)
    elim code [
      | none ↦ pure tt
      | some c ↦ modify (emit (coupon_confirmed c coupon order.client_id order.id))
    ]
]

-- mark-order-as-paid.use-case.ts
unfoldable pub mark_order_as_paid : String → Action World (Unit {0})
unfolding find_by_id save record_coupon_usage publish create_order_event send_order_email
mark_order_as_paid id = do
  found ← find_by_id id
  order ← or_throw found order_not_found
  if not (is_status order.status awaiting_payment) then pure tt else (do
    paid ← attempt (confirm_payment order)
    save paid
    record_coupon_usage paid
    publish (create_order_event order_paid paid)
    send_order_email paid_email paid)

-- save-order-credentials.use-case.ts
unfoldable pub save_order_credentials :
    String → String → OrderCredentials → String → Action World (Unit {0})
unfolding find_by_id_for_client save_credentials publish create_order_event
save_order_credentials id client credentials confirm_password = do
  found ← find_by_id_for_client id client
  order ← or_throw found order_not_found
  throw_if (not (same credentials.password confirm_password)) order_credentials_password_mismatch
  changed ← attempt (set_credentials credentials order)
  save_credentials changed
  publish (create_order_event order_credentials_saved changed)

-- clear-order-credentials.use-case.ts
unfoldable pub clear_order_credentials : String → Action World (Unit {0})
unfolding find_by_id save clear_credentials
clear_order_credentials id = do
  found ← find_by_id id
  order ← or_throw found order_not_found
  save (clear_credentials order)

abbrev revealable : String → Option OrderRow → Option OrderRow
revealable booster none = none
revealable booster (some r) =
    if holds_text r.booster_id booster && is_status r.status in_progress then some r else none

-- reveal-order-credentials.use-case.ts with `findCredentialsForBooster`
unfoldable pub reveal_order_credentials : String → String → Action World OrderCredentials
unfolding emit
reveal_order_credentials id booster = do
  found ← gets (λ w. revealable booster (lookup id w.orders))
  row ← or_throw found order_not_found
  credentials ← or_throw row.credentials order_credentials_not_found
  modify (emit (credentials_revealed id booster))
  pure credentials
