-- ===== src/Orders/Quoting.antt =====
-- Making, previewing and clearing away quotes: the use cases create-order-quote, preview-order-quote and
-- cleanup-expired-order-quotes of apps/api/src/modules/orders/application, and
-- infrastructure/repositories/prisma-order-quote.repository.ts. A new id is an argument.
pub mod Prices
pub mod Cleanup
mod Tests
use elonew.Base.{
  ℕ, zero, suc, ◌+◌, ◌-◌, ◌*◌, String, Bool, true, false, not, ◌&&◌, List, [], ◌∷◌, Option, none,
  some, any, same, is_some, ltb, leb, length, if◌then◌else◌, Dict, lookup, insert,
}
use elonew.Base.Int.{ℤ}
use elonew.Common.Errors.{Result, ok, err}
use elonew.Orders.Coupon.{CouponLookup, CouponEvent, ApplyOrderCouponInput, Applied, apply}
use elonew.Orders.Entity.{OrderPricedExtra}
use elonew.Orders.Pricing.{calculate}
use elonew.Orders.PricingVersion.{
  Texts, OrderPricingVersion, OrderQuoteRequestDetails, OrderPricingSnapshot,
}
use elonew.Orders.Quote.{OrderQuote}
use elonew.Platform.World.{World}

-- `CreateOrderQuoteInput`, without `now`.
pub record CreateOrderQuoteInput : Type 0 where
  pub client_id : String
  pub summoner_name : String
  pub coupon_code : Option String
  pub details : OrderQuoteRequestDetails
  pub server : String
  pub lp_gain : ℕ

pub record CreateOrderQuoteOutput : Type 0 where
  pub quote_id : String
  pub subtotal : ℤ
  pub total_amount : ℤ
  pub discount_amount : ℤ

-- `create` of the repository: the row.
abbrev pub quote_row :
    String → CreateOrderQuoteInput → Option String → OrderPricingSnapshot → ℕ → OrderQuote
quote_row id input coupon pricing expires_at = record {
  id = id;
  client_id = input.client_id;
  coupon_id = coupon;
  pricing_version_id = pricing.pricing_version_id;
  service_type = input.details.service_type;
  summoner_name = some input.summoner_name;
  current_league = input.details.current_league;
  current_division = input.details.current_division;
  current_lp = input.details.current_lp;
  desired_league = input.details.desired_league;
  desired_division = input.details.desired_division;
  server = input.server;
  desired_queue = input.details.desired_queue;
  lp_gain = input.lp_gain;
  subtotal = pricing.subtotal;
  total_amount = pricing.total_amount;
  discount_amount = pricing.discount_amount;
  extras = pricing.extras;
  expires_at = expires_at;
  consumed_at = none;
  order_id = none;
}

unfoldable pub create_quote :
    String → CreateOrderQuoteInput → Option String → OrderPricingSnapshot → ℕ → World → World
create_quote id input coupon pricing expires_at w = record w {
  quotes = insert id (quote_row id input coupon pricing expires_at) w.quotes;
}

-- The price of the request, and what the coupon makes of it.
module _ (texts : Texts) (look : CouponLookup) (active : Option OrderPricingVersion) where
  unfoldable pub price_with_coupon : CreateOrderQuoteInput → Bool → Applied
  price_with_coupon input emit_events = elim (calculate texts active input.details) [
    | err e ↦ (err e, [])
    | ok pricing ↦ apply texts look (record {
      client_id = input.client_id;
      coupon_code = input.coupon_code;
      pricing = pricing;
      request_details = input.details;
      emit_events = emit_events;
    })
  ]

  -- preview-order-quote.use-case.ts
  unfoldable pub preview_order_quote : CreateOrderQuoteInput → Result OrderPricingSnapshot
  preview_order_quote input = elim (price_with_coupon input false).0 [
    | err e ↦ err e
    | ok (coupon, pricing) ↦ ok pricing
  ]

  -- create-order-quote.use-case.ts, and the events of the coupon
  unfoldable pub create_order_quote :
      String
      → ℕ
      → CreateOrderQuoteInput
      → ℕ
      → World
      → Result CreateOrderQuoteOutput × World × List CouponEvent
  create_order_quote id ttl_minutes input now w = elim (price_with_coupon input true).0 [
    | err e ↦ (err e, w, (price_with_coupon input true).1)
    | ok (coupon, pricing) ↦ (
      ok (record {
        quote_id = id;
        subtotal = pricing.subtotal;
        total_amount = pricing.total_amount;
        discount_amount = pricing.discount_amount;
      }),
      create_quote id input coupon pricing (now + ttl_minutes * 60000) w,
      (price_with_coupon input true).1,
    )
  ]

-- `consumedAt: null, orderId: null`
abbrev pub is_unused : OrderQuote → Bool
is_unused q = not (is_some q.consumed_at) && not (is_some q.order_id)

abbrev pub is_expired_unused : ℕ → OrderQuote → Bool
is_expired_unused before q = ltb q.expires_at before && is_unused q

unfoldable pub expired_unused : ℕ → Dict OrderQuote → Dict OrderQuote
expired_unused before [] = []
expired_unused before ((k, q) ∷ d) =
    let rest = expired_unused before d in if is_expired_unused before q then (k, q) ∷ rest else rest

-- `orderBy: { expiresAt: 'asc' }`
unfoldable pub insert_by_expiry : String × OrderQuote → Dict OrderQuote → Dict OrderQuote
insert_by_expiry e [] = e ∷ []
insert_by_expiry e (f ∷ d) =
    if leb e.1.expires_at f.1.expires_at then e ∷ f ∷ d else f ∷ insert_by_expiry e d

unfoldable pub sort_by_expiry : Dict OrderQuote → Dict OrderQuote
sort_by_expiry [] = []
sort_by_expiry (e ∷ d) = insert_by_expiry e (sort_by_expiry d)

-- `take: input.limit`, and the ids
unfoldable pub first_ids : ℕ → Dict OrderQuote → List String
first_ids zero d = []
first_ids (suc n) [] = []
first_ids (suc n) ((k, q) ∷ d) = k ∷ first_ids n d

-- `deleteMany`
unfoldable pub delete_unused : List String → Dict OrderQuote → Dict OrderQuote
delete_unused ids [] = []
delete_unused ids ((k, q) ∷ d) =
    let rest = delete_unused ids d in
    if any (same k) ids && is_unused q then rest else (k, q) ∷ rest

-- `cleanupExpiredUnused`
unfoldable pub cleanup_expired_unused : ℕ → ℕ → Dict OrderQuote → ℕ × Dict OrderQuote
cleanup_expired_unused before limit d =
    let kept = delete_unused (first_ids limit (sort_by_expiry (expired_unused before d))) d in
    (length d - length kept, kept)

abbrev pub retention_ms : ℕ
retention_ms = 7 * 86400000

-- cleanup-expired-order-quotes.use-case.ts, from the time on that the retention has passed.
unfoldable pub cleanup_expired_order_quotes : ℕ → ℕ → World → ℕ × World
unfolding cleanup_expired_unused
cleanup_expired_order_quotes now limit w =
    let (deleted, quotes) = cleanup_expired_unused (now - retention_ms) limit w.quotes in
    (deleted, record w { quotes = quotes })
