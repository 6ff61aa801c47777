-- ===== src/Payments/Entity.antt =====
-- apps/api/src/modules/payments/domain/payment.entity.ts: the `Payment` class.
use elonew.Base.{String, ◌||◌, List, [], ◌∷◌, Option, none, some, any, or_else, if◌then◌else◌}
use elonew.Base.Int.{ℤ, pos, leb_ℤ}
use elonew.Common.Errors.{
  Result, ok, err, payment_amount_invalid, payment_invalid_transition,
  payment_hold_release_not_allowed,
}
use elonew.Money.Double.{seven_tenths}
use elonew.Money.Amount.{from_cents, percentage}
use elonew.Orders.Status.{OrderStatus, completed, is_status}
use elonew.Payments.Status.{
  PaymentStatus, awaiting_confirmation, held, released, failed, is_payment_status,
}

-- packages/shared/src/payments/payment-method.ts
pub data PaymentMethod : Type 0 where
  credit_card pix boleto : PaymentMethod

-- The gateway is `MERCADO_PAGO` in every payment.
pub record Payment : Type 0 where
  pub id : String
  pub order_id : String
  pub gross_amount : ℤ
  pub booster_amount : ℤ
  pub payment_method : PaymentMethod
  pub gateway_reference_id : Option String
  pub gateway_id : Option String
  pub gateway_status : Option String
  pub gateway_status_detail : Option String
  pub gateway_payment_method_id : Option String
  pub gateway_payment_type_id : Option String
  pub checkout_url : Option String
  pub status : PaymentStatus

-- `ALLOWED_TRANSITIONS`
abbrev pub allowed_transitions : PaymentStatus → List PaymentStatus
allowed_transitions awaiting_confirmation = held ∷ failed ∷ []
allowed_transitions held = released ∷ []
allowed_transitions released = []
allowed_transitions failed = []

-- `Money.fromCents(grossAmount).percentage(BOOSTER_SHARE_RATE).cents`
unfoldable pub booster_share : ℤ → Result ℤ
booster_share gross = elim (from_cents gross) [
  | err e ↦ err e
  | ok m ↦ elim (percentage (some seven_tenths) m) [ err e ↦ err e | ok share ↦ ok share.cents ]
]

unfoldable pub create : String → String → ℤ → PaymentMethod → Result Payment
create id order_id gross method =
    if leb_ℤ gross (pos 0) then err payment_amount_invalid else elim (booster_share gross) [
      | err e ↦ err e
      | ok share ↦ ok (record {
        id = id;
        order_id = order_id;
        gross_amount = gross;
        booster_amount = share;
        payment_method = method;
        gateway_reference_id = none;
        gateway_id = none;
        gateway_status = none;
        gateway_status_detail = none;
        gateway_payment_method_id = none;
        gateway_payment_type_id = none;
        checkout_url = none;
        status = awaiting_confirmation;
      })
    ]

-- The input of `attachGatewayDetails`: `none` is a field that is not given, which keeps what the
-- payment has; `some none` sets it to null.
pub record GatewayDetails : Type 0 where
  pub gateway_reference_id : Option (Option String)
  pub gateway_id : Option String
  pub gateway_status : Option String
  pub gateway_status_detail : Option (Option String)
  pub gateway_payment_method_id : Option (Option String)
  pub gateway_payment_type_id : Option (Option String)
  pub checkout_url : Option (Option String)

unfoldable pub attach_gateway_details : GatewayDetails → Payment → Payment
attach_gateway_details d p = record p {
  gateway_reference_id = or_else d.gateway_reference_id p.gateway_reference_id;
  gateway_id = d.gateway_id;
  gateway_status = d.gateway_status;
  gateway_status_detail = or_else d.gateway_status_detail p.gateway_status_detail;
  gateway_payment_method_id = or_else d.gateway_payment_method_id p.gateway_payment_method_id;
  gateway_payment_type_id = or_else d.gateway_payment_type_id p.gateway_payment_type_id;
  checkout_url = or_else d.checkout_url p.checkout_url;
}

unfoldable pub transition_to : PaymentStatus → Payment → Result Payment
transition_to next p =
    if any (is_payment_status next) (allowed_transitions p.status)
    then ok (record p { status = next })
    else err (payment_invalid_transition p.status next)

unfoldable pub confirm : Payment → Result Payment
unfolding transition_to
confirm p =
    if is_payment_status p.status held || is_payment_status p.status released
    then ok p
    else transition_to held p

unfoldable pub fail : Payment → Result Payment
unfolding transition_to
fail p = if is_payment_status p.status failed then ok p else transition_to failed p

unfoldable pub release_hold : OrderStatus → Payment → Result Payment
unfolding transition_to
release_hold order_status p =
    if is_payment_status p.status released
    then ok p
    else if is_status order_status completed
    then transition_to released p
    else err payment_hold_release_not_allowed
