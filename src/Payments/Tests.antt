-- ===== src/Payments/Tests.antt =====
-- Runs of the payments model, and the theorems at concrete inputs.
-- Code: apps/api/src/modules/payments
use elonew.Money.Double.{math_round, mul_double, round_53, nearest_even, excess}
use elonew.Payments.Entity.{release_hold, confirm}
use elonew.Payments.Webhook.{
  resolve_notification, is_supported_topic, resolve_payment, attach_notification,
}
use elonew.Orders.UseCases.{mark_order_as_paid}
use elonew.Orders.Repository.{map_order_from_record, map_extras_from_record}
use elonew.Payments.Reconcile.{reconcile_all, settle}
use elonew.Base.{
  ℕ, ◌+◌, ◌*◌, ◌≤◌, ◌<◌, Bool, true, false, List, [], ◌∷◌, none, some, ◌≡◌, ◌≢◌, refl, ◌⊎◌, inl,
  arith, lookup,
}
use elonew.Base.Int.{pos}
use elonew.Common.Errors.{ok}
use elonew.Money.Share.{share_of}
use elonew.Orders.Outcomes.{essentials}
use elonew.Orders.Status.{awaiting_payment, pending_booster, completed}
use elonew.Payments.Entity.{Payment, pix, create}
use elonew.Payments.Gateway.{WebhookInput}
use elonew.Payments.Lifecycle.{Call, run_call, ◌⟶◌, create_amounts, payment_call-⟶}
use elonew.Payments.Notified.{payment_essentials, handle_webhook_again, confirm_payment-moves}
use elonew.Payments.Reconcile.{
  Candidate, ReconciliationCounts, reconcile_stale_checkouts, reconcile_payment, empty_counts,
}
use elonew.Payments.Status.{awaiting_confirmation, held, released, failed}
use elonew.Payments.Swept.{Told, reconcile-counts}
use elonew.Payments.UseCases.{confirm_payment}
use elonew.Payments.Webhook.{handle_webhook}
use elonew.Platform.Samples.{row, world, payment, gateway, notification, delivery}
use elonew.Platform.World.{World}

-- A share of 31.5 cents comes out as 31: its product in floating point is just below.
share_of_45 : share_of 45 ≡ 31
unfolding math_round mul_double round_53 nearest_even excess
share_of_45 = refl

create_amounts_example :
    (p : Payment) × (share : ℕ) × (create "p1" "o1" (pos 45) pix ≡ ok p)
    × (p.status ≡ awaiting_confirmation)
    × (p.gross_amount ≡ pos 45)
    × (p.booster_amount ≡ pos share)
    × (0 < share)
    × (share ≤ 45)
    × (10 * share ≤ 7 * 45 + 5)
    × (7 * 45 ≤ 10 * share + 5)
create_amounts_example = create_amounts "p1" "o1" 45 pix (omega arith) (omega arith)

payment_call-⟶_example :
    ((released ≡ held) ⊎ (held ⟶ released))
    × ((payment released).id ≡ "p1")
    × ((payment released).order_id ≡ "o1")
    × ((payment released).gross_amount ≡ pos 10000)
    × ((payment released).booster_amount ≡ pos 7000)
    × ((released ≢ released)
        ⊎ (held ≡ released)
        ⊎ (Call.release_call completed ≡ Call.release_call completed))
unfolding run_call release_hold
payment_call-⟶_example =
    payment_call-⟶ (Call.release_call completed) (payment held) {p' = payment released} refl

abbrev trust : WebhookInput → Bool
trust _ = true

abbrev waiting : World
waiting = world (row awaiting_payment none none) awaiting_confirmation

abbrev late : World
late = world (row awaiting_payment none none) failed

handle_webhook_again_example :
    handle_webhook trust
      (gateway "rejected")
      (delivery "e2")
      (handle_webhook trust (gateway "approved") (delivery "e1") waiting).1
    ≡ (ok false, (handle_webhook trust (gateway "approved") (delivery "e1") waiting).1)
unfolding resolve_notification handle_webhook is_supported_topic lookup resolve_payment
    attach_notification confirm mark_order_as_paid map_order_from_record map_extras_from_record
    elonew.Orders.Entity.confirm_payment
handle_webhook_again_example =
    handle_webhook_again trust (gateway "approved") (gateway "rejected") (delivery "e1")
      (delivery "e2") waiting {n = notification "approved"} refl (inl refl) refl refl refl refl

confirm_payment-moves_example :
    ((confirm_payment "p1" waiting).0 ≡ ok tt)
    × (payment_essentials (lookup "p1" (confirm_payment "p1" waiting).1.payments)
        ≡ some ("o1", held))
    × (essentials (lookup "o1" (confirm_payment "p1" waiting).1.orders)
        ≡ some (pending_booster, none, none))
unfolding lookup map_extras_from_record
confirm_payment-moves_example =
    confirm_payment-moves waiting {p = payment awaiting_confirmation}
      {r = row awaiting_payment none none} refl refl refl refl refl refl

abbrev finished : World
finished = world (row completed (some "bob") none) held

abbrev candidates : List Candidate
candidates = record { payment = payment awaiting_confirmation; created_at = 5 } ∷ []

abbrev swept : ReconciliationCounts
swept = record (empty_counts) { scanned_count = 1; confirmed_count = 1 }

swept_is :
    (reconcile_stale_checkouts (gateway "approved") true 9 candidates waiting).0 ≡ ok (some swept)
unfolding reconcile_stale_checkouts reconcile_all reconcile_payment lookup settle
    resolve_notification mark_order_as_paid attach_notification map_order_from_record
    map_extras_from_record elonew.Orders.Entity.confirm_payment confirm
swept_is = refl

reconcile-counts_example :
    let out = reconcile_stale_checkouts (gateway "approved") true 9 candidates waiting in
    (out.1.counts.scanned_count ≡ 1) × Told out
reconcile-counts_example = reconcile-counts (gateway "approved") 9 candidates waiting
