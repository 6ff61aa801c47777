-- ===== src/Orders/Eligibility.antt =====
-- Which orders a coupon is for: apps/api/src/modules/orders/application/coupon-eligibility.ts, and the rank
-- order of packages/shared/src/orders/order-rank-progression.ts.
use elonew.Base.{
  ℕ, suc, ◌-◌, String, Bool, false, ◌&&◌, not, List, [], ◌∷◌, Option, none, some, any, same, length,
  ltb, if◌then◌else◌,
}
use elonew.Base.Int.{ℤ, pos, negsuc, ltb_ℤ}
use elonew.Common.Errors.{
  CouponInvalidReason, not_first_order, service_type_not_allowed, queue_not_allowed,
  email_not_allowed, subtotal_below_minimum, subtotal_above_maximum, rank_below_minimum,
  rank_above_maximum, not_enough_extras, required_extra_missing,
}
use elonew.Money.Double.{Double}
use elonew.Orders.Entity.{OrderServiceType}
use elonew.Orders.Pricing.{is_service_type}
use elonew.Orders.PricingVersion.{Texts}

pub data CouponDiscountType : Type 0 where
  percentage_discount fixed_discount : CouponDiscountType

-- `discount` is `none` where the stored number is not finite or below zero.
pub record StoredCoupon : Type 0 where
  pub id : String
  pub discount_type : CouponDiscountType
  pub discount : Option Double
  pub is_active : Bool
  pub first_order_only : Bool
  pub allowed_service_types : List OrderServiceType
  pub allowed_queues : List String
  pub allowed_emails : List String
  pub min_subtotal : Option ℤ
  pub max_subtotal : Option ℤ
  pub min_rank_index : Option ℤ
  pub max_rank_index : Option ℤ
  pub min_extras_count : Option ℕ
  pub required_extra : Option String
  pub global_usage_limit : Option ℕ
  pub per_user_usage_limit : Option ℕ

-- `clientEmail` is trimmed and in lower case already.
pub record CouponEligibilityContext : Type 0 where
  pub client_email : String
  pub is_first_paid_order : Bool
  pub service_type : OrderServiceType
  pub desired_queue : String
  pub rank_index : ℤ
  pub selected_extras : List String
  pub subtotal : ℤ

-- A list that is not empty and misses the value.
abbrev pub excludes : {A : Type 0} → (A → Bool) → List A → Bool
excludes p [] = false
excludes p (x ∷ xs) = not (any p (x ∷ xs))

-- `bound !== null && test(bound)`
abbrev pub when_set : {A : Type 0} → (A → Bool) → Option A → Bool
when_set p none = false
when_set p (some a) = p a

-- `none` is `{ ok: true }`.
unfoldable pub evaluate_coupon_eligibility :
    StoredCoupon → CouponEligibilityContext → Option CouponInvalidReason
evaluate_coupon_eligibility c x =
    if c.first_order_only && not x.is_first_paid_order
    then some not_first_order
    else if excludes (is_service_type x.service_type) c.allowed_service_types
    then some service_type_not_allowed
    else if excludes (same x.desired_queue) c.allowed_queues
    then some queue_not_allowed
    else if excludes (same x.client_email) c.allowed_emails
    then some email_not_allowed
    else if when_set (λ bound. ltb_ℤ x.subtotal bound) c.min_subtotal
    then some subtotal_below_minimum
    else if when_set (λ bound. ltb_ℤ bound x.subtotal) c.max_subtotal
    then some subtotal_above_maximum
    else if when_set (λ bound. ltb_ℤ x.rank_index bound) c.min_rank_index
    then some rank_below_minimum
    else if when_set (λ bound. ltb_ℤ bound x.rank_index) c.max_rank_index
    then some rank_above_maximum
    else if when_set (ltb (length x.selected_extras)) c.min_extras_count
    then some not_enough_extras
    else if when_set (λ extra. not (any (same extra) x.selected_extras)) c.required_extra
    then some required_extra_missing
    else none

-- `orderRankProgression`
abbrev pub divisions_of : String → List (String × String) → List (String × String)
divisions_of league rest = (league, "IV") ∷ (league, "III") ∷ (league, "II") ∷ (league, "I") ∷ rest

unfoldable pub order_rank_progression : List (String × String)
order_rank_progression = divisions_of "iron" (
    divisions_of "bronze" (
      divisions_of "silver" (
        divisions_of "gold" (
          divisions_of "platinum"
            (divisions_of "emerald" (divisions_of "diamond" (("master", "MASTER") ∷ [])))))))

-- `findIndex`, from the index of the head.
unfoldable pub index_of_rank : String → String → ℕ → List (String × String) → ℤ
index_of_rank league division i [] = negsuc 0
index_of_rank league division i ((l, d) ∷ rest) =
    let later = index_of_rank league division (suc i) rest in
    if same l league && same d division then pos i else later

unfoldable pub find_order_rank_index : Texts → String → String → ℤ
unfolding order_rank_progression index_of_rank
find_order_rank_index texts league division =
    if same (texts.lower league) "master"
    then pos (length order_rank_progression - 1)
    else index_of_rank (texts.lower league) (texts.upper division) 0 order_rank_progression
