-- ===== src/Orders/Discounts.antt =====
-- What a coupon takes off a price, and which coupons are taken.
-- Code: apps/api/src/modules/orders/application/services/order-coupon.service.ts and
-- apps/api/src/modules/orders/application/coupon-eligibility.ts
use elonew.Base.{
  String, true, none, some, ◌≡◌, refl, ◌∙◌, ap, ◌⊎◌, inl, inr, arith, Option-cases, or_else,
}
use elonew.Base.Int.{ℤ, pos, ◌-ℤ◌, ◌≤ℤ◌, parts_of_eq, int_laws}
use elonew.Common.Errors.{ok, then_do-eq-ok}
use elonew.Money.Amount.{
  Money, from_cents, from_decimal, percentage, subtract, min, max, money_zero,
  round_half_away_from_zero,
}
use elonew.Orders.PricingVersion.{Texts, OrderPricingSnapshot}
use elonew.Orders.Coupon.{
  CouponLookup, ApplyOrderCouponInput, raw_discount, apply_discount, has_valid_discount,
  build_context, usage_limit_reason, apply, take_coupon, reject, check_coupon,
  coupon_min_order_total_cents,
}
use elonew.Orders.Eligibility.{StoredCoupon, evaluate_coupon_eligibility}

from_cents-eq : (x : ℤ) {m : Money} → from_cents x ≡ ok m → m.cents ≡ x
unfolding from_cents
from_cents-eq x h = ground arith

subtract-eq : (a b : Money) {m : Money} → subtract a b ≡ ok m → m.cents ≡ a.cents -ℤ b.cents
unfolding subtract from_cents
subtract-eq a b h = ground arith

raw_discount-pos :
    (c : StoredCoupon) (s : Money) {m : Money}
    → pos 0 ≤ℤ s.cents
    → raw_discount c s ≡ ok m
    → pos 0 ≤ℤ m.cents
unfolding raw_discount percentage from_decimal from_cents round_half_away_from_zero
raw_discount-pos c s positive h = ground arith

capped :
    (raw room : Money)
    → pos 0 ≤ℤ raw.cents
    → (pos 0 ≤ℤ (min raw (max money_zero room)).cents)
      × (((min raw (max money_zero room)).cents ≤ℤ pos 0)
          ⊎ ((min raw (max money_zero room)).cents ≤ℤ room.cents))
unfolding min max
capped raw room positive = ground arith

-- A coupon's discount on a price that is not negative, where it does not throw, is not negative, and
-- is zero or leaves at least the smallest order total. What is left is the price less the discount,
-- and the rest of the price stays.
pub apply_discount-bounds :
    (c : StoredCoupon) (p : OrderPricingSnapshot) {p' : OrderPricingSnapshot}
    → pos 0 ≤ℤ p.subtotal
    → apply_discount c p ≡ ok p'
    → (p'.total_amount ≡ p.subtotal -ℤ p'.discount_amount)
      × (pos 0 ≤ℤ p'.discount_amount)
      × ((p'.discount_amount ≡ pos 0) ⊎ (coupon_min_order_total_cents ≤ℤ p'.total_amount))
      × (p'.subtotal ≡ p.subtotal)
      × (p'.extras ≡ p.extras)
      × (p'.pricing_version_id ≡ p.pricing_version_id)
unfolding apply_discount
apply_discount-bounds c p {p'} positive h =
    let (s, hs, h₁) = then_do-eq-ok (from_cents p.subtotal) _ h in
    let (raw, hr, h₂) = then_do-eq-ok (raw_discount c s) _ h₁ in
    let (least, hl, h₃) = then_do-eq-ok (from_cents coupon_min_order_total_cents) _ h₂ in
    let (room, hm, h₄) = then_do-eq-ok (subtract s least) _ h₃ in
    let (total, ht, h₅) = then_do-eq-ok (subtract s (min raw (max money_zero room))) _ h₄ in
    let own = from_cents-eq p.subtotal hs in
    let fifty = from_cents-eq coupon_min_order_total_cents hl in
    let (low, high) = capped raw room (raw_discount-pos c s (rw own positive) hr) in
    let left = subtract-eq s least hm in
    let rest = subtract-eq s (min raw (max money_zero room)) ht in
    let q : record {
      pricing_version_id = p.pricing_version_id;
      subtotal = p.subtotal;
      total_amount = total.cents;
      discount_amount = (min raw (max money_zero room)).cents;
      extras = p.extras;
    }
        ≡ p' =
      cc h₅ in
    rw (← q) (
      rest ∙ ap (λ v. v -ℤ (min raw (max money_zero room)).cents) own,
      low,
      elim high [
        | inl nothing ↦ inl (omega (int_laws, low, nothing))
        | inr some_room ↦
            inr (omega (int_laws, parts_of_eq left, parts_of_eq rest, parts_of_eq fifty, some_room))
      ],
      refl,
      refl,
      refl,
    )

-- A coupon that `apply` takes is the one stored under the code, is active, has a discount, fits the
-- order and its client, and is under its usage limits; the price is the discounted one.
pub apply-accepts :
    (texts : Texts) (look : CouponLookup) (input : ApplyOrderCouponInput) {id : String}
    {p' : OrderPricingSnapshot}
    → (apply texts look input).0 ≡ ok (some id, p')
    → (c : StoredCoupon) × (look.find_by_code (texts.upper (or_else input.coupon_code "")) ≡ some c)
      × (c.id ≡ id)
      × (c.is_active ≡ true)
      × (has_valid_discount c ≡ true)
      × (evaluate_coupon_eligibility c (build_context texts look input c) ≡ none)
      × (usage_limit_reason look input.client_id c ≡ none)
      × (apply_discount c input.pricing ≡ ok p')
unfolding apply check_coupon reject take_coupon
apply-accepts texts look input {id} {p'} h =
    elim (Option-cases (look.find_by_code (texts.upper (or_else input.coupon_code "")))) [
      | inl missing ↦ ground arith
      | inr (c, found) ↦ (
        c,
        found,
        ground arith,
        ground arith,
        ground arith,
        ground arith,
        ground arith,
        ground arith,
      )
    ]
