-- ===== src/Payments/Reconcile.antt =====
-- apps/api/src/modules/payments/application/use-cases/reconcile-stale-checkouts. The candidates are
-- what the query found; the source takes them three at a time with `Promise.all`, and they are
-- taken one after the other here. Times are in milliseconds.
use elonew.Base.{
  ℕ, suc, ◌-◌, ◌*◌, String, Bool, List, [], ◌∷◌, Option, none, some, same, truthy, or_else, leb,
  if◌then◌else◌, length, lookup,
}
use elonew.Common.Errors.{Result, ok, err, ◌then_do◌}
use elonew.Common.Action.{Action, ◌>>=◌, ◌>>◌, pure, modify, attempt}
use elonew.Orders.UseCases.{mark_order_as_paid, clear_order_credentials}
use elonew.Payments.Status.{awaiting_confirmation, is_payment_status}
use elonew.Payments.Entity.{Payment, confirm, fail}
use elonew.Payments.Gateway.{PaymentGateway, FetchPaymentNotificationOutput}
use elonew.Payments.Ports.{find_by_id, save}
use elonew.Payments.Webhook.{
  Resolution, to_confirm, to_fail, pending, defer, attach_notification, resolve_notification,
}
use elonew.Platform.World.{World}

pub record Candidate : Type 0 where
  pub payment : Payment
  pub created_at : ℕ

pub record ReconciliationCounts : Type 0 where
  pub scanned_count : ℕ
  pub confirmed_count : ℕ
  pub failed_count : ℕ
  pub pending_updated_count : ℕ
  pub expired_count : ℕ
  pub skipped_count : ℕ
  pub gateway_error_count : ℕ

abbrev pub empty_counts : ReconciliationCounts
empty_counts = record {
  scanned_count = 0;
  confirmed_count = 0;
  failed_count = 0;
  pending_updated_count = 0;
  expired_count = 0;
  skipped_count = 0;
  gateway_error_count = 0;
}

-- The tables, and the counters that `reconcilePayment` is handed by reference: what has been counted
-- stays counted after a throw, as the log line of `execute` shows.
pub record Sweep : Type 0 where
  pub world : World
  pub counts : ReconciliationCounts

-- A call on the tables.
abbrev pub on_tables : {A : Type 0} → Action World A → Action Sweep A
on_tables m s = let (r, w) = m s.world in (r, record s { world = w })

-- `counts.confirmedCount++`
abbrev pub count_confirmed : Action Sweep (Unit {0})
count_confirmed = modify (λ s. record s {
  counts = record (s.counts) { confirmed_count = suc s.counts.confirmed_count };
})

-- `counts.failedCount++`
abbrev pub count_failed : Action Sweep (Unit {0})
count_failed =
    modify
      (λ s. record s { counts = record (s.counts) { failed_count = suc s.counts.failed_count } })

-- `counts.pendingUpdatedCount++`
abbrev pub count_pending_updated : Action Sweep (Unit {0})
count_pending_updated = modify (λ s. record s {
  counts = record (s.counts) { pending_updated_count = suc s.counts.pending_updated_count };
})

-- `counts.expiredCount++`
abbrev pub count_expired : Action Sweep (Unit {0})
count_expired =
    modify
      (λ s. record s { counts = record (s.counts) { expired_count = suc s.counts.expired_count } })

-- `counts.skippedCount++`
abbrev pub count_skipped : Action Sweep (Unit {0})
count_skipped =
    modify
      (λ s. record s { counts = record (s.counts) { skipped_count = suc s.counts.skipped_count } })

-- `counts.gatewayErrorCount++`
abbrev pub count_gateway_error : Action Sweep (Unit {0})
count_gateway_error = modify (λ s. record s {
  counts = record (s.counts) { gateway_error_count = suc s.counts.gateway_error_count };
})

-- `currentPayment`, where it still awaits its confirmation.
abbrev pub still_awaiting : Option Payment → Option Payment
still_awaiting none = none
still_awaiting (some p) = if is_payment_status p.status awaiting_confirmation then some p else none

unfoldable pub expire_unstarted : ℕ → Candidate → Action Sweep (Unit {0})
unfolding find_by_id save
expire_unstarted expire_created_before c =
    if leb expire_created_before c.created_at then count_skipped else (do
      found ← on_tables (find_by_id c.payment.id)
      elim (still_awaiting found) [
        | none ↦ count_skipped
        | some current ↦ do
          on_tables (clear_order_credentials current.order_id)
          failed' ← attempt (fail current)
          on_tables (save failed')
          count_expired
      ])

unfoldable pub settle : Resolution → Payment → Action Sweep (Unit {0})
unfolding save
settle to_confirm p = do
  on_tables (mark_order_as_paid p.order_id)
  confirmed' ← attempt (confirm p)
  on_tables (save confirmed')
  count_confirmed
settle to_fail p = do
  on_tables (clear_order_credentials p.order_id)
  failed' ← attempt (fail p)
  on_tables (save failed')
  count_failed
settle pending p = do on_tables (save p); count_pending_updated
settle defer p = count_skipped

-- The provider's answer, where it is about this payment.
abbrev pub own_answer :
    String → Option FetchPaymentNotificationOutput → Option FetchPaymentNotificationOutput
own_answer id none = none
own_answer id (some n) = if same n.internal_payment_id id then some n else none

unfoldable pub provider_payment :
    PaymentGateway → Payment → Result (Option FetchPaymentNotificationOutput)
provider_payment gateway p =
    if truthy p.gateway_id
    then elim (gateway.fetch_payment_notification (or_else p.gateway_id "")) [
      | ok n ↦ ok (some n)
      | err e ↦ err e
    ]
    else gateway.fetch_payment_by_external_reference p.id

-- `reconcilePayment`
unfoldable pub reconcile_payment : PaymentGateway → ℕ → Candidate → Action Sweep (Unit {0})
unfolding provider_payment
reconcile_payment gateway expire_created_before c s = elim (provider_payment gateway c.payment) [
  | err e ↦ count_gateway_error s
  | ok answer ↦ elim (own_answer c.payment.id answer) [
    | none ↦ expire_unstarted expire_created_before c s
    | some n ↦ elim (still_awaiting (lookup c.payment.id s.world.payments)) [
      | none ↦ count_skipped s
      | some current ↦
          settle (resolve_notification n.gateway_status) (attach_notification n current) s
    ]
  ]
]

unfoldable pub reconcile_all : PaymentGateway → ℕ → List Candidate → Action Sweep (Unit {0})
reconcile_all gateway before [] = pure tt
reconcile_all gateway before (c ∷ cs) = do
  reconcile_payment gateway before c
  reconcile_all gateway before cs

-- `execute`, without the query: the counts that it returns, `none` where the lock was taken, and the
-- tables and the counts that it logs.
unfoldable pub reconcile_stale_checkouts :
    PaymentGateway
    → Bool
    → ℕ
    → List Candidate
    → World
    → Result (Option ReconciliationCounts) × Sweep
reconcile_stale_checkouts gateway locked now candidates w =
    if locked
    then (let start : Sweep = record {
      world = w;
      counts = record (empty_counts) { scanned_count = length candidates };
    } in
        let (r, s) = reconcile_all gateway (now - 24 * 3600000) candidates start in
        (r then_do λ _. ok (some s.counts), s))
    else (ok none, record { world = w; counts = empty_counts })
