-- ===== src/Payments/Gateway.antt =====
-- apps/api/src/modules/payments/application/ports: what the provider and its webhook's signature
-- answer. The provider is no code of this repository: its calls are parameters, and a call that
-- throws is an error.
use elonew.Base.{String, Option}
use elonew.Base.Int.{ℤ}
use elonew.Common.Errors.{Result}
use elonew.Payments.Entity.{PaymentMethod}

-- The amount is in cents here; `toDecimal` divides it by 100 for the provider.
pub record InitiatePaymentInput : Type 0 where
  pub payment_id : String
  pub order_id : String
  pub amount : ℤ
  pub payment_method : PaymentMethod

pub record InitiatePaymentOutput : Type 0 where
  pub checkout_url : String
  pub gateway_reference_id : String
  pub gateway_status : Option String

pub record FetchPaymentNotificationOutput : Type 0 where
  pub internal_payment_id : String
  pub gateway_payment_id : String
  pub gateway_status : String
  pub gateway_status_detail : Option String
  pub gateway_payment_method_id : Option String
  pub gateway_payment_type_id : Option String

pub record PaymentGateway : Type 0 where
  pub initiate_payment : InitiatePaymentInput → Result InitiatePaymentOutput
  pub fetch_payment_notification : String → Result FetchPaymentNotificationOutput
  pub fetch_payment_by_external_reference : String → Result (Option FetchPaymentNotificationOutput)

pub record WebhookInput : Type 0 where
  pub event_id : String
  pub topic : String
  pub notification_resource_id : String
  pub request_id : Option String
  pub signature : Option String
