-- ===== src/Orders/Entity.antt =====
-- apps/api/src/modules/orders/domain/order.entity.ts: the `Order` class, field by field.
-- A method that changes the order returns the new order, or the error that it throws.
-- Dates are milliseconds since the epoch, amounts are cents.
use elonew.Base.{
  ℕ, String, Bool, false, ◌||◌, List, [], ◌∷◌, Option, none, some, any, is_some, if◌then◌else◌,
}
use elonew.Base.Int.{ℤ}
use elonew.Common.Errors.{
  Result, ok, err, order_invalid_transition, order_cancellation_not_allowed,
  order_credentials_storage_not_allowed,
}
use elonew.Orders.Status.{
  OrderStatus, awaiting_payment, pending_booster, in_progress, completed, cancelled, is_status,
}

-- packages/shared/src/orders/service-type.ts
pub data OrderServiceType : Type 0 where
  elo_boost duo_boost md5 coaching : OrderServiceType

pub record OrderCredentials : Type 0 where
  pub login : String
  pub summoner_name : String
  pub password : String

pub record OrderRequestDetails : Type 0 where
  pub service_type : OrderServiceType
  pub summoner_name : String
  pub current_league : String
  pub current_division : String
  pub current_lp : ℕ
  pub desired_league : String
  pub desired_division : String
  pub server : String
  pub desired_queue : String
  pub lp_gain : ℕ
  pub deadline : Option ℕ

-- packages/shared/src/orders/order-extra.ts: an extra's tag and its price.
pub record OrderPricedExtra : Type 0 where
  pub type : String
  pub price : ℤ

pub record Order : Type 0 where
  pub id : String
  pub client_id : Option String
  pub booster_id : Option String
  pub coupon_id : Option String
  pub pricing_version_id : Option String
  pub status : OrderStatus
  pub pending_credentials : Option OrderCredentials
  pub request_details : Option OrderRequestDetails
  pub subtotal : Option ℤ
  pub total_amount : Option ℤ
  pub discount_amount : ℤ
  pub extras : List OrderPricedExtra
  pub completed_at : Option ℕ
  pub stored_credentials : Bool

-- `ALLOWED_TRANSITIONS`
abbrev pub allowed_transitions : OrderStatus → List OrderStatus
allowed_transitions awaiting_payment = pending_booster ∷ cancelled ∷ []
allowed_transitions pending_booster = in_progress ∷ cancelled ∷ []
allowed_transitions in_progress = completed ∷ []
allowed_transitions completed = []
allowed_transitions cancelled = []

-- `CREDENTIALS_ALLOWED_STATUSES`
abbrev pub credentials_allowed_statuses : List OrderStatus
credentials_allowed_statuses = pending_booster ∷ in_progress ∷ []

pub record DraftPricing : Type 0 where
  pub subtotal : ℤ
  pub total_amount : ℤ
  pub discount_amount : ℤ
  pub extras : List OrderPricedExtra

unfoldable pub create_draft :
    String
    → String
    → Option String
    → Option String
    → String
    → OrderRequestDetails
    → DraftPricing
    → Order
create_draft id client_id booster_id coupon_id pricing_version_id details pricing = record {
  id = id;
  client_id = some client_id;
  booster_id = booster_id;
  coupon_id = coupon_id;
  pricing_version_id = some pricing_version_id;
  status = awaiting_payment;
  pending_credentials = none;
  request_details = some details;
  subtotal = some pricing.subtotal;
  total_amount = some pricing.total_amount;
  discount_amount = pricing.discount_amount;
  extras = pricing.extras;
  completed_at = none;
  stored_credentials = false;
}

-- `get hasCredentials`
abbrev pub has_credentials : Order → Bool
has_credentials o = o.stored_credentials || is_some o.pending_credentials

unfoldable pub transition_to : OrderStatus → Order → Result Order
transition_to next o =
    if any (is_status next) (allowed_transitions o.status)
    then ok (record o { status = next })
    else err (order_invalid_transition o.status next)

unfoldable pub clear_credentials : Order → Order
clear_credentials o = record o { pending_credentials = none; stored_credentials = false }

unfoldable pub confirm_payment : Order → Result Order
unfolding transition_to
confirm_payment o = transition_to pending_booster o

unfoldable pub reject_by_booster : Order → Result Order
reject_by_booster o =
    if is_status o.status pending_booster
    then ok o
    else err (order_invalid_transition o.status pending_booster)

abbrev with_deadline : ℕ → Option OrderRequestDetails → Option OrderRequestDetails
with_deadline deadline none = none
with_deadline deadline (some d) = some (record d { deadline = some deadline })

-- The statement that follows a `transitionTo` in a method.
abbrev then_set : Result Order → (Order → Order) → Result Order
then_set (ok o) f = ok (f o)
then_set (err e) f = err e

unfoldable pub accept_by_booster : ℕ → Order → Result Order
unfolding transition_to
accept_by_booster deadline o =
    then_set (transition_to in_progress o)
      (λ o'. record o' { request_details = with_deadline deadline o'.request_details })

unfoldable pub assign_booster : String → Order → Order
assign_booster booster_id o = record o { booster_id = some booster_id }

unfoldable pub clear_booster_assignment : Order → Order
clear_booster_assignment o = record o { booster_id = none }

unfoldable pub complete : ℕ → Order → Result Order
unfolding transition_to clear_credentials
complete now o =
    then_set (transition_to completed o)
      (λ o'. record (clear_credentials o') { completed_at = some now })

unfoldable pub cancel : Order → Result Order
unfolding transition_to clear_credentials
cancel o =
    if is_status o.status in_progress || is_status o.status completed
    then err order_cancellation_not_allowed
    else then_set (transition_to cancelled o) clear_credentials

abbrev with_summoner_name : String → Option OrderRequestDetails → Option OrderRequestDetails
with_summoner_name name none = none
with_summoner_name name (some d) = some (record d { summoner_name = name })

unfoldable pub set_credentials : OrderCredentials → Order → Result Order
set_credentials c o =
    if any (is_status o.status) credentials_allowed_statuses
    then ok (record o {
      pending_credentials = some c;
      request_details = with_summoner_name c.summoner_name o.request_details;
    })
    else err order_credentials_storage_not_allowed
