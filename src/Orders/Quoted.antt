-- ===== src/Orders/Quoted.antt =====
-- What a price by the active version adds up to.
-- Code: apps/api/src/modules/orders/infrastructure/pricing/versioned-order-pricing.service.ts
use elonew.Base.{
  String, true, List, [], ◌∷◌, Option, none, some, ◌≡◌, refl, inl, inr, arith, All, map, Bool-cases,
}
use elonew.Base.Int.{ℤ, pos, ◌+ℤ◌, ◌≤ℤ◌, ◌<ℤ◌, leb_ℤ, parts_of_eq, int_laws}
use elonew.Common.Errors.{ok, then_do-eq-ok, Result-cases}
use elonew.Money.Double.{Double}
use elonew.Money.Amount.{Money, from_cents, add, percentage, round_half_away_from_zero}
use elonew.Orders.Entity.{OrderPricedExtra}
use elonew.Orders.Pricing.{price_extra, price_extras, add_extras, base_subtotal, calculate}
use elonew.Orders.PricingVersion.{
  Texts, OrderPricingVersion, OrderQuoteRequestDetails, OrderPricingSnapshot, is_order_extra_type,
}

unfoldable pub sum_prices : List OrderPricedExtra → ℤ
sum_prices [] = pos 0
sum_prices (e ∷ es) = e.price +ℤ sum_prices es

from_cents-eq : (x : ℤ) {m : Money} → from_cents x ≡ ok m → m.cents ≡ x
unfolding from_cents
from_cents-eq x h = ground arith

add-eq : (a b : Money) {m : Money} → add a b ≡ ok m → m.cents ≡ a.cents +ℤ b.cents
unfolding add from_cents
add-eq a b h = ground arith

add_extras-sum :
    (texts : Texts) (es : List OrderPricedExtra) (total : Money) {m : Money}
    → add_extras texts es total ≡ ok m
    → m.cents ≡ total.cents +ℤ sum_prices es
unfolding add_extras sum_prices
add_extras-sum texts [] total {m} h = let q : total ≡ m = cc h in rw (← q) (omega int_laws)
add_extras-sum texts (e ∷ es) total {m} h =
    let (p, hp, k) = then_do-eq-ok (from_cents e.price) _ h in
    let (sum, hs, rest) = then_do-eq-ok (add total p) _ k in
    omega (
      int_laws,
      parts_of_eq (from_cents-eq e.price hp),
      parts_of_eq (add-eq total p hs),
      parts_of_eq (add_extras-sum texts es sum rest),
    )

percentage-pos :
    (rate : Double) (base : Money) {m : Money}
    → pos 0 ≤ℤ base.cents
    → percentage (some rate) base ≡ ok m
    → pos 0 ≤ℤ m.cents
unfolding percentage round_half_away_from_zero from_cents
percentage-pos rate base positive h = ground arith

abbrev pub IsPriced : OrderPricedExtra → Type 0
IsPriced e = (is_order_extra_type e.type ≡ true) × (pos 0 ≤ℤ e.price)

price_extra-IsPriced :
    (texts : Texts) (version : OrderPricingVersion) (base : Money) (type : String)
    {e : OrderPricedExtra}
    → pos 0 ≤ℤ base.cents
    → price_extra texts version base type ≡ ok e
    → IsPriced e × (e.type ≡ type)
unfolding price_extra
price_extra-IsPriced texts version base type {e} positive h = grind (arith, percentage-pos)

price_extras-IsPriced :
    (texts : Texts) (version : OrderPricingVersion) (base : Money) (types : List String)
    {es : List OrderPricedExtra}
    → pos 0 ≤ℤ base.cents
    → price_extras texts version base types ≡ ok es
    → All IsPriced es × (map (λ (e : OrderPricedExtra). e.type) es ≡ types)
unfolding price_extras
price_extras-IsPriced texts version base [] {es} positive h =
    let q : [] ≡ es = cc h in rw (← q) (tt, refl)
price_extras-IsPriced texts version base (t ∷ ts) {es} positive h =
    let (x, hx, k) = then_do-eq-ok (price_extra texts version base t) _ h in
    let (xs, hxs, l) = then_do-eq-ok (price_extras texts version base ts) _ k in
    let (priced, own) = price_extra-IsPriced texts version base t positive hx in
    let (all, types) = price_extras-IsPriced texts version base ts positive hxs in
    let q : (x ∷ xs) ≡ es = cc l in rw (← q) ((priced, all), rw (own, types))

sum_prices-pos : (es : List OrderPricedExtra) → All IsPriced es → pos 0 ≤ℤ sum_prices es
unfolding sum_prices
sum_prices-pos [] all = ground arith
sum_prices-pos (e ∷ es) ((_, p), all) = omega (int_laws, p, sum_prices-pos es all)

-- A price that is answered comes from the active version. It is the price of the ranks, which is
-- positive, plus the sum of the extras' prices, is positive itself and has no discount yet; the
-- extras are those that were asked for, in their order, each of a known type and at least at zero.
pub calculate_sound :
    (texts : Texts) (active : Option OrderPricingVersion) (input : OrderQuoteRequestDetails)
    {s : OrderPricingSnapshot}
    → calculate texts active input ≡ ok s
    → (version : OrderPricingVersion) × (base : Money) × (active ≡ some version)
      × (base_subtotal texts version input ≡ ok base)
      × (pos 0 <ℤ base.cents)
      × (s.subtotal ≡ base.cents +ℤ sum_prices s.extras)
      × (pos 0 <ℤ s.subtotal)
      × (s.total_amount ≡ s.subtotal)
      × (s.discount_amount ≡ pos 0)
      × All IsPriced s.extras
      × (map (λ (e : OrderPricedExtra). e.type) s.extras ≡ input.extras)
unfolding calculate
calculate_sound texts none input h = ground arith
calculate_sound texts (some version) input {s} h =
    elim (Result-cases (base_subtotal texts version input)) [
      | inr (x, e) ↦ ground arith
      | inl (base, e) ↦ elim (Bool-cases (leb_ℤ base.cents (pos 0))) [
        | inl small ↦ ground arith
        | inr positive ↦ elim (Result-cases (price_extras texts version base input.extras)) [
          | inr (x, f) ↦ ground arith
          | inl (es, f) ↦ elim (Result-cases (add_extras texts es base)) [
            | inr (x, g) ↦ ground arith
            | inl (total, g) ↦
                let q : record {
                  pricing_version_id = version.id;
                  subtotal = total.cents;
                  total_amount = total.cents;
                  discount_amount = pos 0;
                  extras = es;
                }
                    ≡ s =
                  ground arith in
                let large : pos 0 <ℤ base.cents = ground arith in
                let (priced, own) =
                  price_extras-IsPriced texts version base input.extras (ground arith) f in
                let sums = add_extras-sum texts es base g in
                let grown : pos 0 <ℤ total.cents =
                  omega (int_laws, parts_of_eq sums, large, sum_prices-pos es priced) in
                rw (← q) (version, base, refl, e, large, sums, grown, refl, refl, priced, own)
          ]
        ]
      ]
    ]
