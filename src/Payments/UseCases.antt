-- ===== src/Payments/UseCases.antt =====
-- The use cases of apps/api/src/modules/payments/application/use-cases that a client or the API
-- calls, without their log events. What the provider answers is the parameter `gateway`.
use elonew.Base.{String, not, ◌||◌, none, some, is_some}
use elonew.Common.Errors.{
  payment_not_found, payment_already_exists, payment_order_not_found,
  payment_checkout_resume_not_allowed,
}
use elonew.Common.Action.{Action, ◌>>=◌, ◌>>◌, pure, attempt, or_throw, throw_if}
use elonew.Money.Amount.{from_cents}
use elonew.Orders.Status.{awaiting_payment, is_status}
use elonew.Orders.UseCases.{mark_order_as_paid, clear_order_credentials}
use elonew.Payments.Status.{awaiting_confirmation, is_payment_status}
use elonew.Payments.Entity.{
  Payment, PaymentMethod, create, attach_gateway_details, confirm, fail, release_hold,
}
use elonew.Payments.Gateway.{PaymentGateway}
use elonew.Payments.Ports.{
  find_by_id, find_by_order_id, find_by_order_id_for_client, save, order_status,
  order_status_for_client, order_amount_for_client,
}
use elonew.Platform.World.{World}

-- confirm-payment.use-case.ts
unfoldable pub confirm_payment : String → Action World (Unit {0})
unfolding find_by_id save
confirm_payment id = do
  found ← find_by_id id
  payment ← or_throw found payment_not_found
  confirmed ← attempt (confirm payment)
  save confirmed
  mark_order_as_paid confirmed.order_id

-- fail-payment.use-case.ts
unfoldable pub fail_payment : String → Action World (Unit {0})
unfolding find_by_id save
fail_payment id = do
  found ← find_by_id id
  payment ← or_throw found payment_not_found
  failed' ← attempt (fail payment)
  save failed'
  clear_order_credentials failed'.order_id

-- release-payment-hold.use-case.ts
unfoldable pub release_payment_hold : String → Action World (Unit {0})
unfolding find_by_id save order_status
release_payment_hold id = do
  found ← find_by_id id
  payment ← or_throw found payment_not_found
  status ← order_status payment.order_id
  current ← or_throw status payment_order_not_found
  released' ← attempt (release_hold current payment)
  save released'

module _ (gateway : PaymentGateway) where
  -- create-payment.use-case.ts; the id is that of the new payment.
  unfoldable pub create_payment : String → String → String → PaymentMethod → Action World Payment
  unfolding find_by_order_id order_status_for_client order_amount_for_client save
  create_payment id client order method = do
    existing ← find_by_order_id order
    throw_if (is_some existing) payment_already_exists
    status ← order_status_for_client order client
    current ← or_throw status payment_order_not_found
    amount ← order_amount_for_client order client
    gross ← or_throw amount payment_order_not_found
    payment ← attempt (create id order gross method)
    cents ← attempt (from_cents gross)
    started ← attempt (
        gateway.initiate_payment (record {
          payment_id = payment.id;
          order_id = order;
          amount = cents.cents;
          payment_method = method;
        }))
    let attached =
        attach_gateway_details
          (record {
            gateway_reference_id = some (some started.gateway_reference_id);
            gateway_id = none;
            gateway_status = started.gateway_status;
            gateway_status_detail = some none;
            gateway_payment_method_id = none;
            gateway_payment_type_id = none;
            checkout_url = some (some started.checkout_url);
          })
          payment
    save attached
    pure attached

  -- resume-payment-checkout.use-case.ts
  unfoldable pub resume_payment_checkout : String → String → Action World (String × String)
  unfolding find_by_order_id_for_client order_status_for_client save
  resume_payment_checkout order client = do
    found ← find_by_order_id_for_client order client
    payment ← or_throw found payment_not_found
    status ← order_status_for_client order client
    current ← or_throw status payment_not_found
    throw_if
        (not (is_status current awaiting_payment)
          || not (is_payment_status payment.status awaiting_confirmation))
        payment_checkout_resume_not_allowed
    cents ← attempt (from_cents payment.gross_amount)
    started ← attempt (
        gateway.initiate_payment (record {
          payment_id = payment.id;
          order_id = payment.order_id;
          amount = cents.cents;
          payment_method = payment.payment_method;
        }))
    save (
        attach_gateway_details
          (record {
            gateway_reference_id = some (some started.gateway_reference_id);
            gateway_id = payment.gateway_id;
            gateway_status = started.gateway_status;
            gateway_status_detail = none;
            gateway_payment_method_id = none;
            gateway_payment_type_id = none;
            checkout_url = some (some started.checkout_url);
          })
          payment)
    pure (payment.id, started.checkout_url)
