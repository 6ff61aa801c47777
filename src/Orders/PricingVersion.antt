-- ===== src/Orders/PricingVersion.antt =====
-- What a price is made from: apps/api/src/modules/orders/application/order-pricing.ts,
-- apps/api/src/modules/orders/application/order-pricing-version.ts and
-- packages/shared/src/orders/order-extra.ts.
use elonew.Base.{ℕ, String, Bool, List, [], ◌∷◌, Option, any, same}
use elonew.Base.Int.{ℤ}
use elonew.Money.Double.{Double}
use elonew.Orders.Entity.{OrderServiceType, OrderPricedExtra}

-- `trim().toLowerCase()`, `trim().toUpperCase()`, and `Number(text)` where it is a whole number that is
-- not negative.
pub record Texts : Type 0 where
  pub lower : String → String
  pub upper : String → String
  pub number : String → Option ℕ

pub record OrderPricingStep : Type 0 where
  pub service_type : OrderServiceType
  pub league : String
  pub division : String
  pub price_to_next : ℤ

pub record OrderPricingExtraRate : Type 0 where
  pub type : String
  pub modifier_rate : Double

pub record OrderPricingVersion : Type 0 where
  pub id : String
  pub steps : List OrderPricingStep
  pub extras : List OrderPricingExtraRate

-- The fields of `OrderQuoteRequestDetails` that the pricing reads.
pub record OrderQuoteRequestDetails : Type 0 where
  pub service_type : OrderServiceType
  pub extras : List String
  pub current_league : String
  pub current_division : String
  pub current_lp : ℕ
  pub desired_league : String
  pub desired_division : String
  pub desired_queue : String

pub record OrderPricingSnapshot : Type 0 where
  pub pricing_version_id : String
  pub subtotal : ℤ
  pub total_amount : ℤ
  pub discount_amount : ℤ
  pub extras : List OrderPricedExtra

-- `orderExtraTypes`
abbrev pub order_extra_types : List String
order_extra_types =
    "mmr_nerfed" ∷ "mmr_buffed" ∷ "priority_service" ∷ "favorite_booster" ∷ "super_restriction"
    ∷ "extra_win" ∷ "restricted_schedule" ∷ "kd_reduction" ∷ "deadline_reduction" ∷ "solo_service"
    ∷ "offline_chat" ∷ "spell_position" ∷ "specific_lanes" ∷ "specific_champions" ∷ "online_stream"
    ∷ []

unfoldable pub is_order_extra_type : String → Bool
is_order_extra_type value = any (same value) order_extra_types
