-- ===== src/Orders/Quoting/Prices.antt =====
-- What a client is told of a price, and what the order then costs.
-- Code: apps/api/src/modules/orders/application/use-cases/create-order-quote,
-- apps/api/src/modules/orders/application/use-cases/preview-order-quote
use elonew.Base.{
  ℕ, ◌+◌, ◌*◌, ◌<◌, ◌≤◌, String, Bool, true, false, Option, none, some, inl, inr, ◌≡◌, refl, arith,
  lookup, Dict, Bool-cases, Option-cases, eq_iff, insert, truthy, or_else, lookup-insert_self,
}
use elonew.Common.Errors.{Result, ok, err, order_quote_expired, Result-cases}
use elonew.Orders.Checkout.{
  create_draft_order_from_owned_quote, redeem_quote, draft_row, has_placed_order, consume_quote,
  validate_coupon_for_checkout,
}
use elonew.Orders.Coupon.{
  CouponLookup, ApplyOrderCouponInput, apply, check_coupon, reject, take_coupon, build_context,
}
use elonew.Orders.Eligibility.{StoredCoupon}
use elonew.Orders.Pricing.{calculate}
use elonew.Orders.PricingVersion.{Texts, OrderPricingVersion, OrderPricingSnapshot}
use elonew.Orders.Quoting.{
  quote_row, create_quote, CreateOrderQuoteInput, CreateOrderQuoteOutput, price_with_coupon,
  preview_order_quote, create_order_quote,
}
use elonew.Orders.Quote.{OrderQuote}
use elonew.Orders.Repository.{OrderRow}
use elonew.Payments.Entity.{Payment}
use elonew.Platform.World.{World}

abbrev pub quote_answer : String → OrderPricingSnapshot → CreateOrderQuoteOutput
quote_answer id p = record {
  quote_id = id;
  subtotal = p.subtotal;
  total_amount = p.total_amount;
  discount_amount = p.discount_amount;
}

-- The answer of a preview, the answer of the quote and the tables after and before it.
abbrev pub SameAnswer :
    String → Result OrderPricingSnapshot → Result CreateOrderQuoteOutput → World → World → Type 0
SameAnswer id (ok p) made w' w = made ≡ ok (quote_answer id p)
SameAnswer id (err e) made w' w = (made ≡ err e) × (w' ≡ w)

module _ (texts : Texts) (look : CouponLookup) (active : Option OrderPricingVersion) where
  check_coupon-silent :
      (input : ApplyOrderCouponInput) (code : String) (c : StoredCoupon) (b : Bool)
      → (check_coupon texts look (record input { emit_events = b }) code c).0
        ≡ (check_coupon texts look input code c).0
  unfolding check_coupon reject take_coupon build_context
  check_coupon-silent input code c b = ground arith

  -- Whether events are written makes no difference to the price.
  apply-silent :
      (input : ApplyOrderCouponInput) (b : Bool)
      → (apply texts look (record input { emit_events = b })).0 ≡ (apply texts look input).0
  unfolding apply reject
  apply-silent input b = elim (Bool-cases (truthy input.coupon_code)) [
    | inr blank ↦ rw blank refl
    | inl given ↦
        elim (Option-cases (look.find_by_code (texts.upper (or_else input.coupon_code "")))) [
          | inl missing ↦ rw (given, missing) refl
          | inr (c, found) ↦ rw (given, found) (check_coupon-silent input _ c b)
        ]
  ]

  price-silent :
      (input : CreateOrderQuoteInput)
      → (price_with_coupon texts look active input true).0
        ≡ (price_with_coupon texts look active input false).0
  unfolding price_with_coupon
  price-silent input = elim (Result-cases (calculate texts active input.details)) [
    | inl (pricing, priced) ↦ rw (price_with_coupon, priced) (apply-silent _ true)
    | inr (e, refused) ↦ rw (price_with_coupon, refused) refl
  ]

  -- A preview and the quote that the same request makes then answer the same: the same prices, or the
  -- same refusal, and a refused request makes no quote.
  pub preview_agrees :
      (id : String) (ttl : ℕ) (input : CreateOrderQuoteInput) (now : ℕ) (w : World)
      → SameAnswer id
          (preview_order_quote texts look active input)
          (create_order_quote texts look active id ttl input now w).0
          (create_order_quote texts look active id ttl input now w).1
          w
  unfolding preview_order_quote create_order_quote
  preview_agrees id ttl input now w =
      elim (Result-cases (price_with_coupon texts look active input false).0) [
        | inl ((coupon, p), priced) ↦
            rw (preview_order_quote, create_order_quote, price-silent input, priced) refl
        | inr (e, refused) ↦
            rw (preview_order_quote, create_order_quote, price-silent input, refused) (refl, refl)
      ]

-- The check of the coupon reads no quote and writes nothing.
validate-eq :
    (client : String) (coupon : Option String) (w : World) (quotes : Dict OrderQuote)
    → (validate_coupon_for_checkout client coupon w).0 ≡ ok tt
    → validate_coupon_for_checkout client coupon (record w { quotes = quotes })
      ≡ (ok tt, record w { quotes = quotes })
unfolding validate_coupon_for_checkout has_placed_order
validate-eq client none w quotes passes = refl
validate-eq client (some c) w quotes passes = ground arith

-- Redeeming a quote of the table that was not used, before its end and after it.
redeem-open :
    (order client quote : String) (booster : Option String) (now : ℕ) (paid : Option Payment)
    (w : World) (q : OrderQuote)
    → lookup quote w.quotes ≡ some q
    → q.client_id ≡ client
    → q.consumed_at ≡ none
    → now < q.expires_at
    → validate_coupon_for_checkout client q.coupon_id w ≡ (ok tt, w)
    → (create_draft_order_from_owned_quote order client booster quote now paid w).0
      ≡ ok (draft_row order client booster q)
unfolding create_draft_order_from_owned_quote redeem_quote consume_quote
redeem-open order client quote booster now paid w q found own unused early passes =
    ground (arith, eq_iff q.client_id client)

redeem-expired :
    (order client quote : String) (booster : Option String) (now : ℕ) (paid : Option Payment)
    (w : World) (q : OrderQuote)
    → lookup quote w.quotes ≡ some q
    → q.client_id ≡ client
    → q.consumed_at ≡ none
    → q.expires_at ≤ now
    → create_draft_order_from_owned_quote order client booster quote now paid w
      ≡ (err order_quote_expired, w)
unfolding create_draft_order_from_owned_quote redeem_quote
redeem-expired order client quote booster now paid w q found own unused late =
    ground (arith, eq_iff q.client_id client)

module _ (texts : Texts) (look : CouponLookup) (active : Option OrderPricingVersion) (id : String)
    (ttl : ℕ) (input : CreateOrderQuoteInput) (now : ℕ) (w : World) where
  made-eq :
      {coupon : Option String} {p : OrderPricingSnapshot}
      → (price_with_coupon texts look active input true).0 ≡ ok (coupon, p)
      → (create_order_quote texts look active id ttl input now w).1
        ≡ create_quote id input coupon p (now + ttl * 60000) w
  unfolding create_order_quote
  made-eq priced = rw (create_order_quote, priced) refl

  -- A quote is honoured until it expires: whoever made it gets the order at the prices of the quote, at
  -- any time before the end of its life, if the coupon still passes the check on a first order.
  pub quote_is_honoured :
      (order : String) (booster : Option String) (later : ℕ) (paid : Option Payment)
      {coupon : Option String} {p : OrderPricingSnapshot}
      → (price_with_coupon texts look active input true).0 ≡ ok (coupon, p)
      → later < now + ttl * 60000
      → (validate_coupon_for_checkout input.client_id coupon w).0 ≡ ok tt
      → (row : OrderRow) × ((create_draft_order_from_owned_quote order input.client_id booster id
            later paid
            (create_order_quote texts look active id ttl input now w).1).0
          ≡ ok row)
        × (row.subtotal ≡ some p.subtotal)
        × (row.total_amount ≡ some p.total_amount)
        × (row.discount_amount ≡ p.discount_amount)
        × (row.extras ≡ p.extras)
        × (row.coupon_id ≡ coupon)
  unfolding create_quote
  quote_is_honoured order booster later paid {coupon} {p} priced early passes =
      let q = quote_row id input coupon p (now + ttl * 60000) in
      (
        draft_row order input.client_id booster q,
        rw (made-eq priced) (
            redeem-open order input.client_id id booster later paid
              (create_quote id input coupon p (now + ttl * 60000) w) q
              (lookup-insert_self id q w.quotes) refl refl early
              (validate-eq input.client_id coupon w (insert id q w.quotes) passes)),
        refl,
        refl,
        refl,
        refl,
        refl,
      )

  -- From its end on the quote is refused and nothing is written.
  pub quote_expires :
      (order : String) (booster : Option String) (later : ℕ) (paid : Option Payment)
      {out : CreateOrderQuoteOutput}
      → (create_order_quote texts look active id ttl input now w).0 ≡ ok out
      → now + ttl * 60000 ≤ later
      → create_draft_order_from_owned_quote order input.client_id booster id later paid
          (create_order_quote texts look active id ttl input now w).1
        ≡ (err order_quote_expired, (create_order_quote texts look active id ttl input now w).1)
  unfolding create_order_quote create_quote
  quote_expires order booster later paid made late =
      elim (Result-cases (price_with_coupon texts look active input true).0) [
        | inl ((coupon, p), priced) ↦
            let q = quote_row id input coupon p (now + ttl * 60000) in
            rw (made-eq priced) (
              redeem-expired order input.client_id id booster later paid
                (create_quote id input coupon p (now + ttl * 60000) w) q
                (lookup-insert_self id q w.quotes) refl refl late)
        | inr (e, refused) ↦ cc (rw (create_order_quote, refused) at made)
      ]
