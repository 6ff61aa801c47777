-- ===== src/Payments/Notified.antt =====
-- What a notification of the provider, and the use cases behind it, do to payments and orders.
-- Code: apps/api/src/modules/payments/application/use-cases
use mathlib.Core.Path.{subst}
use elonew.Base.{
  String, Bool, true, false, Option, none, some, ◌∷◌, ◌≡◌, sym, ◌⊎◌, arith, eq_iff, lookup, any,
  same, lookup-insert_self,
}
use elonew.Common.Errors.{ok}
use elonew.Orders.Status.{OrderStatus, awaiting_payment, pending_booster, completed}
use elonew.Orders.Entity.{confirm_payment}
use elonew.Orders.Repository.{OrderRow, IsReadable, map_order_from_record, save_with_client}
use elonew.Orders.Outcomes.{essentials}
use elonew.Orders.UseCases.{mark_order_as_paid, clear_order_credentials}
use elonew.Payments.Status.{PaymentStatus, awaiting_confirmation, held, released, failed}
use elonew.Payments.Entity.{Payment, attach_gateway_details, confirm, fail, release_hold}
use elonew.Payments.Gateway.{PaymentGateway, WebhookInput, FetchPaymentNotificationOutput}
use elonew.Payments.Ports.{build_processed_event_key, mark_processed, has_processed}
use elonew.Payments.UseCases.{confirm_payment as confirm_payment_of, release_payment_hold}
use elonew.Payments.Webhook.{
  Resolution, to_confirm, to_fail, resolve_notification, resolve_payment, is_supported_topic,
  handle_webhook, attach_notification, pending, defer,
}
use elonew.Platform.World.{World, governance_recorded}

-- What the tables hold of a payment: its order and its status.
abbrev pub payment_essentials : Option Payment → Option (String × PaymentStatus)
payment_essentials none = none
payment_essentials (some p) = some (p.order_id, p.status)

abbrev pub order_status_of : Option OrderRow → Option OrderStatus
order_status_of none = none
order_status_of (some r) = some r.status

-- A payment that was confirmed or failed leaves its key among the processed ones.
resolve_payment-marks :
    (r : Resolution) (key : String) (p : Payment) (w : World)
    → (r ≡ to_confirm) ⊎ (r ≡ to_fail)
    → (resolve_payment r key p w).0 ≡ ok tt
    → any (same key) (resolve_payment r key p w).1.processed_events ≡ true
unfolding resolve_payment mark_processed confirm fail mark_order_as_paid clear_order_credentials
    confirm_payment
resolve_payment-marks to_confirm key p w final done = ground (arith, eq_iff key key)
resolve_payment-marks to_fail key p w final done = ground (arith, eq_iff key key)
resolve_payment-marks pending key p w final done = ground arith
resolve_payment-marks defer key p w final done = ground arith

handle_webhook-marks :
    (verify : WebhookInput → Bool) (g : PaymentGateway) (i : WebhookInput) (w : World)
    {n : FetchPaymentNotificationOutput}
    → g.fetch_payment_notification i.notification_resource_id ≡ ok n
    → (resolve_notification n.gateway_status ≡ to_confirm)
      ⊎ (resolve_notification n.gateway_status ≡ to_fail)
    → (handle_webhook verify g i w).0 ≡ ok true
    → any
        (same (build_processed_event_key i.notification_resource_id))
        (handle_webhook verify g i w).1.processed_events
      ≡ true
unfolding handle_webhook
handle_webhook-marks verify g i w {n} answer final done = grind (arith, resolve_payment-marks)

handle_webhook-skips :
    (verify : WebhookInput → Bool) (g : PaymentGateway) (i : WebhookInput) (w : World)
    → verify i ≡ true
    → is_supported_topic i.topic ≡ true
    → any (same (build_processed_event_key i.notification_resource_id)) w.processed_events ≡ true
    → handle_webhook verify g i w ≡ (ok false, w)
unfolding handle_webhook has_processed
handle_webhook-skips verify g i w valid topic known = ground arith

-- A delivery that was answered and whose notification the provider calls approved, rejected or
-- cancelled is handled once: a later delivery of the same resource with a valid signature and on a
-- supported topic, whatever the provider then answers, is answered as not processed and changes
-- nothing.
pub handle_webhook_again :
    (verify : WebhookInput → Bool) (g g' : PaymentGateway) (i i' : WebhookInput) (w : World)
    {n : FetchPaymentNotificationOutput}
    → g.fetch_payment_notification i.notification_resource_id ≡ ok n
    → (resolve_notification n.gateway_status ≡ to_confirm)
      ⊎ (resolve_notification n.gateway_status ≡ to_fail)
    → (handle_webhook verify g i w).0 ≡ ok true
    → verify i' ≡ true
    → is_supported_topic i'.topic ≡ true
    → i'.notification_resource_id ≡ i.notification_resource_id
    → handle_webhook verify g' i' (handle_webhook verify g i w).1
      ≡ (ok false, (handle_webhook verify g i w).1)
handle_webhook_again verify g g' i i' w {n} answer final done valid topic same_resource =
    handle_webhook-skips verify g' i' (handle_webhook verify g i w).1 valid topic (
      subst
        (λ k.
          any (same (build_processed_event_key k)) (handle_webhook verify g i w).1.processed_events
          ≡ true)
        (sym same_resource) (handle_webhook-marks verify g i w answer final done))

-- An approval of a payment that has failed, when it is answered, does not revive the payment, whose
-- row stands under its id: it stays failed, no order changes, and the one new effect asks for an
-- administrator.
pub late_approval :
    (verify : WebhookInput → Bool) (g : PaymentGateway) (i : WebhookInput) (w : World)
    {n : FetchPaymentNotificationOutput} {p : Payment}
    → g.fetch_payment_notification i.notification_resource_id ≡ ok n
    → resolve_notification n.gateway_status ≡ to_confirm
    → lookup n.internal_payment_id w.payments ≡ some p
    → p.id ≡ n.internal_payment_id
    → p.status ≡ failed
    → (handle_webhook verify g i w).0 ≡ ok true
    → (payment_essentials (lookup p.id (handle_webhook verify g i w).1.payments)
        ≡ some (p.order_id, failed))
      × ((handle_webhook verify g i w).1.orders ≡ w.orders)
      × ((handle_webhook verify g i w).1.effects ≡ governance_recorded p.id p.order_id ∷ w.effects)
unfolding handle_webhook resolve_payment attach_notification attach_gateway_details mark_processed
late_approval verify g i w {n} {p} answer approved found key st done =
    grind (arith, lookup-insert_self)

-- Confirming a payment that awaits it, for an order that awaits payment, with both rows under their
-- ids and the order's extras of known types, succeeds and moves both: the payment is held, the
-- order waits for a booster, and its booster and its credentials are as they were.
pub confirm_payment-moves :
    (w : World) {p : Payment} {r : OrderRow}
    → lookup p.id w.payments ≡ some p
    → p.status ≡ awaiting_confirmation
    → lookup p.order_id w.orders ≡ some r
    → r.id ≡ p.order_id
    → r.status ≡ awaiting_payment
    → IsReadable r
    → ((confirm_payment_of p.id w).0 ≡ ok tt)
      × (payment_essentials (lookup p.id (confirm_payment_of p.id w).1.payments)
          ≡ some (p.order_id, held))
      × (essentials (lookup p.order_id (confirm_payment_of p.id w).1.orders)
          ≡ some (pending_booster, r.booster_id, r.credentials))
unfolding confirm_payment_of confirm mark_order_as_paid confirm_payment map_order_from_record
    save_with_client
confirm_payment-moves w {p} {r} found st order key wait readable = grind (arith, lookup-insert_self)

-- Where releasing the hold of a held payment, whose row stands under its id, succeeds, its order is
-- completed, and the payment is now released.
pub release_payment_hold-guard :
    (w : World) {p : Payment}
    → lookup p.id w.payments ≡ some p
    → p.status ≡ held
    → (release_payment_hold p.id w).0 ≡ ok tt
    → (order_status_of (lookup p.order_id w.orders) ≡ some completed)
      × (payment_essentials (lookup p.id (release_payment_hold p.id w).1.payments)
          ≡ some (p.order_id, released))
unfolding release_payment_hold release_hold
release_payment_hold-guard w {p} found st done = grind (arith, lookup-insert_self)
