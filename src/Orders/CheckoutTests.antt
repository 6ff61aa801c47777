-- ===== src/Orders/CheckoutTests.antt =====
-- Runs of the pricing, the coupons and the checkout, and the theorems at concrete inputs.
-- Code: apps/api/src/modules/orders/infrastructure/pricing, apps/api/src/modules/orders/application/services
use elonew.Orders.Pricing.{get_price_table, steps_of, before_rank, total_price, price_extra}
use elonew.Money.Amount.{add}
use elonew.Orders.PricingVersion.{is_order_extra_type}
use elonew.Orders.Eligibility.{find_order_rank_index}
use elonew.Money.Amount.{from_cents, percentage, subtract, min, max}
use elonew.Money.Double.{round_53, nearest_even, excess, div_double, scale_up}
use elonew.Base.{
  ℕ, String, true, false, [], ◌∷◌, Option, none, some, map, ◌≡◌, refl, ◌⊎◌, arith, lookup, All,
}
use elonew.Base.Int.{pos, ◌+ℤ◌, ◌-ℤ◌, ◌≤ℤ◌, ◌<ℤ◌}
use elonew.Common.Errors.{ok, err, order_quote_already_used}
use elonew.Money.Amount.{Money}
use elonew.Money.Double.{double_of}
use elonew.Orders.Checkout.{create_draft_order_from_owned_quote, draft_row, redeem_quote}
use elonew.Orders.Coupon.{
  CouponLookup, ApplyOrderCouponInput, apply, apply_discount, build_context, usage_limit_reason,
  has_valid_discount, coupon_min_order_total_cents,
}
use elonew.Orders.Discounts.{apply_discount-bounds}
use elonew.Orders.Eligibility.{StoredCoupon, evaluate_coupon_eligibility, percentage_discount}
use elonew.Orders.Entity.{OrderPricedExtra, elo_boost}
use elonew.Orders.Pricing.{base_subtotal, calculate}
use elonew.Orders.PricingVersion.{
  Texts, OrderPricingStep, OrderPricingVersion, OrderQuoteRequestDetails, OrderPricingSnapshot,
}
use elonew.Orders.Quoted.{calculate_sound, sum_prices, IsPriced}
use elonew.Orders.Redeemed.{quote_used_once}
use elonew.Orders.Status.{cancelled}
use elonew.Payments.Entity.{Payment, pix}
use elonew.Payments.Status.{awaiting_confirmation}
use elonew.Platform.Samples.{row, world, quote}
use elonew.Platform.World.{World}

-- Texts that are in their normal form already.
abbrev pub plain : Texts
plain = record { lower = λ s. s; upper = λ s. s; number = λ _. none }

abbrev step_at : String → ℕ → OrderPricingStep
step_at division price = record {
  service_type = elo_boost;
  league = "gold";
  division = division;
  price_to_next = pos price;
}

abbrev pub version : OrderPricingVersion
version = record {
  id = "v1";
  steps = step_at "III" 1000 ∷ step_at "II" 2000 ∷ step_at "I" 3000 ∷ [];
  extras = record { type = "extra_win"; modifier_rate = record { mant = 1; scale = 2 } } ∷ [];
}

-- From half of gold III to gold I, with an extra of a quarter.
abbrev pub wish : OrderQuoteRequestDetails
wish = record {
  service_type = elo_boost;
  extras = "extra_win" ∷ [];
  current_league = "gold";
  current_division = "III";
  current_lp = 50;
  desired_league = "gold";
  desired_division = "I";
  desired_queue = "solo";
}

abbrev pub price : OrderPricingSnapshot
price = record {
  pricing_version_id = "v1";
  subtotal = pos 3125;
  total_amount = pos 3125;
  discount_amount = pos 0;
  extras = record { type = "extra_win"; price = pos 625 } ∷ [];
}

pub price_is : calculate plain (some version) wish ≡ ok price
unfolding calculate get_price_table steps_of before_rank from_cents total_price percentage round_53
    nearest_even excess div_double scale_up add ◌+ℤ◌ subtract ◌-ℤ◌ price_extra is_order_extra_type
price_is = refl

calculate_sound_example :
    (v : OrderPricingVersion) × (base : Money) × (◌≡◌ {A = Option OrderPricingVersion}
      (some version)
      (some v))
    × (base_subtotal plain v wish ≡ ok base)
    × (pos 0 <ℤ base.cents)
    × (price.subtotal ≡ base.cents +ℤ sum_prices price.extras)
    × (pos 0 <ℤ price.subtotal)
    × (price.total_amount ≡ price.subtotal)
    × (price.discount_amount ≡ pos 0)
    × All IsPriced price.extras
    × (map (λ (e : OrderPricedExtra). e.type) price.extras ≡ wish.extras)
calculate_sound_example = calculate_sound plain (some version) wish price_is

abbrev pub tenth_off : StoredCoupon
tenth_off = record {
  id = "c1";
  discount_type = percentage_discount;
  discount = some (double_of 10);
  is_active = true;
  first_order_only = true;
  allowed_service_types = elo_boost ∷ [];
  allowed_queues = "solo" ∷ [];
  allowed_emails = [];
  min_subtotal = some (pos 1000);
  max_subtotal = none;
  min_rank_index = some (pos 0);
  max_rank_index = some (pos 20);
  min_extras_count = some 1;
  required_extra = some "extra_win";
  global_usage_limit = some 5;
  per_user_usage_limit = some 1;
}

abbrev pub lookups : CouponLookup
lookups = record {
  find_by_code = λ _. some tenth_off;
  count_confirmed_usage = λ _. 3;
  count_confirmed_usage_for_client = λ _ _. 0;
  find_email_by_id = λ _. some "ann@x";
  has_paid_order = λ _. false;
}

abbrev pub asked : ApplyOrderCouponInput
asked = record {
  client_id = "ann";
  coupon_code = some "TENTH";
  pricing = price;
  request_details = wish;
  emit_events = true;
}

abbrev discounted : OrderPricingSnapshot
discounted = record (price) { total_amount = pos 2812; discount_amount = pos 313 }

discount_is : apply_discount tenth_off price ≡ ok discounted
unfolding apply_discount from_cents percentage round_53 nearest_even excess div_double scale_up
    subtract ◌-ℤ◌ min max
discount_is = refl

apply_discount-bounds_example :
    (discounted.total_amount ≡ price.subtotal -ℤ discounted.discount_amount)
    × (pos 0 ≤ℤ discounted.discount_amount)
    × ((discounted.discount_amount ≡ pos 0)
        ⊎ (coupon_min_order_total_cents ≤ℤ discounted.total_amount))
    × (discounted.subtotal ≡ price.subtotal)
    × (discounted.extras ≡ price.extras)
    × (discounted.pricing_version_id ≡ price.pricing_version_id)
apply_discount-bounds_example = apply_discount-bounds tenth_off price (omega arith) discount_is

taken : (apply plain lookups asked).0 ≡ ok (some "c1", discounted)
unfolding apply has_valid_discount evaluate_coupon_eligibility build_context find_order_rank_index
    usage_limit_reason apply_discount from_cents percentage round_53 nearest_even excess div_double
    scale_up subtract ◌-ℤ◌ min max
taken = refl

-- A client whose only order was cancelled.
abbrev shop : World
shop = world (row cancelled none none) awaiting_confirmation

quote_used_once_example :
    create_draft_order_from_owned_quote "o3" "ann" none "q1" 10 none
      (create_draft_order_from_owned_quote "o2" "ann" none "q1" 9 none shop).1
    ≡ (
      err order_quote_already_used,
      (create_draft_order_from_owned_quote "o2" "ann" none "q1" 9 none shop).1,
    )
unfolding create_draft_order_from_owned_quote redeem_quote lookup
quote_used_once_example =
    quote_used_once "o2" "o3" "ann" "q1" none none 9 10 none none shop
      {row = draft_row "o2" "ann" none quote} refl

abbrev started : Payment
started = record {
  id = "p2";
  order_id = "o2";
  gross_amount = pos 10000;
  booster_amount = pos 7000;
  payment_method = pix;
  gateway_reference_id = some "ref";
  gateway_id = none;
  gateway_status = some "pending";
  gateway_status_detail = none;
  gateway_payment_method_id = none;
  gateway_payment_type_id = none;
  checkout_url = some "url";
  status = awaiting_confirmation;
}
