-- ===== src/Orders/Coupon.antt =====
-- Coupons at checkout: apps/api/src/modules/orders/application/services/order-coupon.service.ts. The
-- answers of the lookups are a record that the service reads.
use elonew.Base.{
  ℕ, String, Bool, true, not, List, [], ◌∷◌, Option, none, some, map, or_else, leb, ◌==◌,
  if◌then◌else◌, truthy,
}
use elonew.Base.Int.{ℤ, pos}
use elonew.Common.Errors.{
  Result, ok, err, ◌then_do◌, CouponInvalidReason, not_found, inactive, discount_invalid,
  global_usage_limit_reached, per_user_usage_limit_reached, order_coupon_invalid,
}
use elonew.Money.Double.{Double, div_double}
use elonew.Money.Amount.{
  Money, money_zero, from_cents, from_decimal, percentage, subtract, min, max,
}
use elonew.Orders.Entity.{OrderPricedExtra}
use elonew.Orders.PricingVersion.{Texts, OrderPricingSnapshot, OrderQuoteRequestDetails}
use elonew.Orders.Eligibility.{
  percentage_discount, fixed_discount, StoredCoupon, CouponEligibilityContext, when_set,
  evaluate_coupon_eligibility, find_order_rank_index,
}

abbrev pub coupon_min_order_total_cents : ℤ
coupon_min_order_total_cents = pos 50

unfoldable pub has_valid_discount : StoredCoupon → Bool
has_valid_discount c = when_set (λ (d : Double). not (d.mant == 0)) c.discount

abbrev pub per_cent : Option Double → Option Double
per_cent none = none
per_cent (some d) = some (div_double d 100)

unfoldable pub raw_discount : StoredCoupon → Money → Result Money
raw_discount c subtotal = elim c.discount_type [
  | percentage_discount ↦ percentage (per_cent c.discount) subtotal
  | fixed_discount ↦ from_decimal c.discount
]

unfoldable pub apply_discount : StoredCoupon → OrderPricingSnapshot → Result OrderPricingSnapshot
unfolding raw_discount
apply_discount c pricing = from_cents pricing.subtotal then_do λ subtotal.
    raw_discount c subtotal then_do λ raw. from_cents coupon_min_order_total_cents then_do λ least.
    subtract subtotal least then_do λ room.
    subtract subtotal (min raw (max money_zero room)) then_do λ total. ok (record {
      pricing_version_id = pricing.pricing_version_id;
      subtotal = pricing.subtotal;
      total_amount = total.cents;
      discount_amount = (min raw (max money_zero room)).cents;
      extras = pricing.extras;
    })

-- What the coupon's and the client's lookups answer.
pub record CouponLookup : Type 0 where
  pub find_by_code : String → Option StoredCoupon
  pub count_confirmed_usage : String → ℕ
  pub count_confirmed_usage_for_client : String → String → ℕ
  pub find_email_by_id : String → Option String
  pub has_paid_order : String → Bool

pub data CouponEventType : Type 0 where
  validation_failed eligibility_failed usage_limit_failed applied_at_checkout : CouponEventType

pub record CouponEvent : Type 0 where
  pub type : CouponEventType
  pub code : String
  pub coupon_id : Option String
  pub client_id : String
  pub reason : Option CouponInvalidReason

pub record ApplyOrderCouponInput : Type 0 where
  pub client_id : String
  pub coupon_code : Option String
  pub pricing : OrderPricingSnapshot
  pub request_details : OrderQuoteRequestDetails
  pub emit_events : Bool

unfoldable pub build_context :
    Texts → CouponLookup → ApplyOrderCouponInput → StoredCoupon → CouponEligibilityContext
build_context texts look input c = record {
  client_email = texts.lower (elim c.allowed_emails [
    | [] ↦ ""
    | _ ∷ _ ↦ or_else (look.find_email_by_id input.client_id) ""
  ]);
  is_first_paid_order =
      if c.first_order_only then not (look.has_paid_order input.client_id) else true;
  service_type = input.request_details.service_type;
  desired_queue = input.request_details.desired_queue;
  rank_index =
      find_order_rank_index texts input.request_details.current_league
        input.request_details.current_division;
  selected_extras = map (λ (e : OrderPricedExtra). e.type) input.pricing.extras;
  subtotal = input.pricing.subtotal;
}

unfoldable pub usage_limit_reason :
    CouponLookup → String → StoredCoupon → Option CouponInvalidReason
usage_limit_reason look client c =
    if when_set (λ limit. leb limit (look.count_confirmed_usage c.id)) c.global_usage_limit
    then some global_usage_limit_reached
    else if when_set (λ limit. leb limit (look.count_confirmed_usage_for_client c.id client))
        c.per_user_usage_limit
    then some per_user_usage_limit_reached
    else none

-- What `apply` answers, and the events that it records.
abbrev pub Applied : Type 0
Applied = Result (Option String × OrderPricingSnapshot) × List CouponEvent

abbrev pub recorded : ApplyOrderCouponInput → CouponEvent → List CouponEvent
recorded input e = if input.emit_events then e ∷ [] else []

unfoldable pub reject :
    ApplyOrderCouponInput → String → Option String → CouponEventType → CouponInvalidReason → Applied
reject input code coupon kind why = (
  err (order_coupon_invalid why),
  recorded input (record {
    type = kind;
    code = code;
    coupon_id = coupon;
    client_id = input.client_id;
    reason = some why;
  }),
)

unfoldable pub take_coupon : ApplyOrderCouponInput → String → StoredCoupon → Applied
take_coupon input code c = elim (apply_discount c input.pricing) [
  | err e ↦ (err e, [])
  | ok pricing ↦ (
    ok (some c.id, pricing),
    recorded input (record {
      type = applied_at_checkout;
      code = code;
      coupon_id = some c.id;
      client_id = input.client_id;
      reason = none;
    }),
  )
]

unfoldable pub check_coupon :
    Texts → CouponLookup → ApplyOrderCouponInput → String → StoredCoupon → Applied
check_coupon texts look input code c =
    if not c.is_active
    then reject input code (some c.id) validation_failed inactive
    else if not (has_valid_discount c)
    then reject input code (some c.id) validation_failed discount_invalid
    else elim (evaluate_coupon_eligibility c (build_context texts look input c)) [
      | some why ↦ reject input code (some c.id) eligibility_failed why
      | none ↦ elim (usage_limit_reason look input.client_id c) [
        | some why ↦ reject input code (some c.id) usage_limit_failed why
        | none ↦ take_coupon input code c
      ]
    ]

-- `apply`
unfoldable pub apply : Texts → CouponLookup → ApplyOrderCouponInput → Applied
unfolding reject take_coupon check_coupon
apply texts look input =
    if not (truthy input.coupon_code)
    then (ok (none, input.pricing), [])
    else elim (look.find_by_code (texts.upper (or_else input.coupon_code ""))) [
      | none ↦
          reject input (texts.upper (or_else input.coupon_code "")) none validation_failed not_found
      | some c ↦ check_coupon texts look input (texts.upper (or_else input.coupon_code "")) c
    ]
