-- ===== src/Payments/Webhook.antt =====
-- apps/api/src/modules/payments/application/use-cases/handle-payment-confirmed-webhook: what a
-- notification of the provider does, without its log event. The verdict on the signature and the
-- provider's answers are parameters.
use elonew.Base.{String, Bool, true, false, ◌||◌, none, some, not, same, if◌then◌else◌}
use elonew.Common.Errors.{
  payment_not_found, payment_webhook_signature_invalid, payment_webhook_topic_not_supported,
  payment_webhook_notification_mismatch,
}
use elonew.Common.Action.{Action, ◌>>=◌, ◌>>◌, pure, attempt, or_throw, throw_if}
use elonew.Orders.UseCases.{mark_order_as_paid, clear_order_credentials}
use elonew.Payments.Status.{failed, is_payment_status}
use elonew.Payments.Entity.{Payment, attach_gateway_details, confirm, fail}
use elonew.Payments.Gateway.{PaymentGateway, WebhookInput, FetchPaymentNotificationOutput}
use elonew.Payments.Ports.{
  find_by_id, save, record_late_approved_after_expiration, build_processed_event_key, has_processed,
  mark_processed,
}
use elonew.Platform.World.{World}

-- `PaymentWebhookResolution`, and `GatewayResolution` of the reconciliation.
pub data Resolution : Type 0 where
  to_confirm to_fail pending defer : Resolution

-- `resolveNotification`
unfoldable pub resolve_notification : String → Resolution
resolve_notification s =
    if same s "approved"
    then to_confirm
    else if same s "authorized" || same s "pending" || same s "in_process"
    then pending
    else if same s "rejected" || same s "cancelled"
    then to_fail
    else defer

unfoldable pub is_supported_topic : String → Bool
is_supported_topic topic = same topic "payment" || same topic "payment.updated"

-- The details that a notification attaches.
unfoldable pub attach_notification : FetchPaymentNotificationOutput → Payment → Payment
unfolding attach_gateway_details
attach_notification n = attach_gateway_details (record {
  gateway_reference_id = none;
  gateway_id = some n.gateway_payment_id;
  gateway_status = some n.gateway_status;
  gateway_status_detail = some n.gateway_status_detail;
  gateway_payment_method_id = some n.gateway_payment_method_id;
  gateway_payment_type_id = some n.gateway_payment_type_id;
  checkout_url = none;
})

-- What follows once the payment has its details.
unfoldable pub resolve_payment : Resolution → String → Payment → Action World (Unit {0})
unfolding save mark_processed record_late_approved_after_expiration
resolve_payment to_confirm key p =
    if is_payment_status p.status failed
    then (do save p; record_late_approved_after_expiration p.id p.order_id; mark_processed key)
    else (do
      confirmed ← attempt (confirm p)
      save confirmed
      mark_order_as_paid confirmed.order_id
      mark_processed key)
resolve_payment to_fail key p = do
  failed' ← attempt (fail p)
  save failed'
  clear_order_credentials failed'.order_id
  mark_processed key
resolve_payment pending key p = save p
resolve_payment defer key p = save p

-- `execute`: whether the notification was processed.
unfoldable pub handle_webhook :
    (WebhookInput → Bool) → PaymentGateway → WebhookInput → Action World Bool
unfolding has_processed find_by_id build_processed_event_key
handle_webhook verify gateway input = do
  throw_if (not (verify input)) payment_webhook_signature_invalid
  throw_if (not (is_supported_topic input.topic)) payment_webhook_topic_not_supported
  already ← has_processed (build_processed_event_key input.notification_resource_id)
  if already then pure false else (do
    notification ← attempt (gateway.fetch_payment_notification input.notification_resource_id)
    throw_if (same notification.internal_payment_id "") payment_webhook_notification_mismatch
    found ← find_by_id notification.internal_payment_id
    payment ← or_throw found payment_not_found
    resolve_payment (resolve_notification notification.gateway_status)
        (build_processed_event_key input.notification_resource_id)
        (attach_notification notification payment)
    pure true)
