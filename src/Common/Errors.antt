-- ===== src/Common/Errors.antt =====
-- The domain errors of the API's modules (apps/api/src/modules/*/domain/*.errors.ts), without their
-- texts, and the results of methods that may throw.
use elonew.Base.{Bool, true, false, ◌≡◌, refl, ◌⊎◌, inl, inr, arith}
use elonew.Orders.Status.{OrderStatus}
use elonew.Payments.Status.{PaymentStatus}

-- `CouponInvalidReason`
pub data CouponInvalidReason : Type 0 where
  not_found inactive discount_invalid not_first_order service_type_not_allowed queue_not_allowed
        email_not_allowed subtotal_below_minimum subtotal_above_maximum rank_below_minimum
        rank_above_maximum not_enough_extras required_extra_missing global_usage_limit_reached
        per_user_usage_limit_reached :
      CouponInvalidReason

pub data DomainError : Type 0 where
  -- orders
  order_not_found order_already_exists order_cancellation_not_allowed : DomainError
  order_invalid_transition : OrderStatus → OrderStatus → DomainError
  order_credentials_storage_not_allowed order_credentials_not_found : DomainError
  order_credentials_password_mismatch : DomainError
  -- pricing and coupons
  order_unsupported_pricing_service_type order_rank_progression_invalid : DomainError
  order_rank_not_priced order_pricing_version_not_active order_pricing_version_incomplete :
      DomainError
  order_pricing_version_not_found order_pricing_version_immutable : DomainError
  order_pricing_version_name_invalid order_pricing_version_active_conflict : DomainError
  order_coupon_invalid : CouponInvalidReason → DomainError
  coupon_not_found coupon_code_already_exists : DomainError
  order_quote_not_found order_quote_already_used order_quote_expired : DomainError
  -- payments
  payment_not_found payment_already_exists payment_amount_invalid : DomainError
  payment_invalid_transition : PaymentStatus → PaymentStatus → DomainError
  payment_hold_release_not_allowed payment_checkout_resume_not_allowed : DomainError
  payment_order_not_found payment_gateway_error : DomainError
  payment_webhook_signature_invalid payment_webhook_notification_mismatch : DomainError
  payment_webhook_topic_not_supported : DomainError
  -- wallets
  wallet_not_found wallet_invalid_amount wallet_insufficient_withdrawable_balance : DomainError
  wallet_order_completion_credit_not_found wallet_order_completion_already_released : DomainError
  -- tickets
  ticket_not_found ticket_access_denied ticket_invalid_status_transition : DomainError
  ticket_message_operation_invalid ticket_order_access_denied : DomainError
  ticket_order_link_unsupported : DomainError
  -- chat
  chat_order_not_found chat_forbidden chat_not_writable chat_message_not_found : DomainError
  -- notifications
  notification_not_found notification_read_conflict : DomainError
  -- ratings
  rating_order_not_found rating_not_allowed order_not_ratable rating_window_closed : DomainError
  rating_already_submitted invalid_rating_score : DomainError
  -- users and sessions
  user_email_already_in_use username_already_in_use : DomainError
  user_email_confirmation_token_invalid user_password_reset_token_invalid : DomainError
  auth_invalid_credentials auth_user_inactive auth_user_blocked : DomainError
  auth_refresh_token_invalid auth_refresh_token_revoked : DomainError
  authentication_required invalid_access_token insufficient_permissions : DomainError
  internal_api_key_required invalid_internal_api_key : DomainError
  -- administration
  admin_governance_reason_required admin_self_block admin_self_role_change : DomainError
  admin_user_not_found admin_user_email_already_in_use admin_username_already_in_use : DomainError
  admin_user_password_setup_unavailable : DomainError
  admin_order_not_found admin_order_not_completed admin_order_booster_missing : DomainError
  -- no domain error: `InvalidMoneyError`, a missing row under a conditional update, a plain `Error`
  invalid_money record_to_update_not_found plain_error : DomainError

pub data Result {ℓ} (A : Type ℓ) : Type ℓ where
  ok : A → Result A
  err : DomainError → Result A

abbrev pub is_ok {ℓ} : {A : Type ℓ} → Result A → Bool
is_ok (ok _) = true
is_ok (err _) = false

-- A call of a method that may throw, and what follows it.
infixl 5 ◌then_do◌
abbrev pub ◌then_do◌ {ℓ κ} : {A : Type ℓ} {B : Type κ} → Result A → (A → Result B) → Result B
ok a then_do f = f a
err e then_do f = err e

-- Inversion of a chain that succeeds.
pub then_do-eq-ok {ℓ κ} :
    {A : Type ℓ} {B : Type κ} (m : Result A) (f : A → Result B) {b : B}
    → (m then_do f) ≡ ok b
    → (a : A) × (m ≡ ok a) × (f a ≡ ok b)
then_do-eq-ok (ok a) f h = (a, refl, h)
then_do-eq-ok (err e) f h = cc

pub Result-cases {ℓ} :
    {A : Type ℓ} (r : Result A) → ((a : A) × (r ≡ ok a)) ⊎ ((e : DomainError) × (r ≡ err e))
Result-cases (ok a) = inl (a, refl)
Result-cases (err e) = inr (e, refl)

pub is_ok-eq-ok {ℓ} : {A : Type ℓ} (r : Result A) → is_ok r ≡ true → (a : A) × (r ≡ ok a)
is_ok-eq-ok (ok a) h = (a, refl)
is_ok-eq-ok (err e) h = ground arith
