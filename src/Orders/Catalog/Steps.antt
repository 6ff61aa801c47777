-- ===== src/Orders/Catalog/Steps.antt =====
-- Sorting the steps of a version keeps what it has a price for.
-- Code: apps/api/src/modules/orders/infrastructure/repositories/prisma-order-pricing-version.repository.ts
use mathlib.Core.Path.{fun_ext}
use elonew.Base.{
  same, ◌&&◌, Bool, ◌||◌, List, [], ◌∷◌, any, inl, inr, ◌≡◌, refl, ap, ◌∙◌, arith, Bool-cases,
}
use elonew.Orders.Eligibility.{order_rank_progression}
use elonew.Orders.PricingVersion.{Texts, OrderPricingStep, OrderPricingExtraRate, order_extra_types}
use elonew.Orders.Catalog.{
  insert_step, sort_steps, comes_before, is_complete, all_of, is_step_of,
  rank_priced_order_service_types,
}

any-insert_step :
    (p : OrderPricingStep → Bool) (s : OrderPricingStep) (xs : List OrderPricingStep)
    → any p (insert_step s xs) ≡ p s || any p xs
unfolding insert_step
any-insert_step p s [] = refl
any-insert_step p s (x ∷ xs) = elim (Bool-cases (comes_before x s)) [
  | inl y ↦ let ih = any-insert_step p s xs in rw (y, ih) (ground arith)
  | inr n ↦ rw n refl
]

any-sort_steps :
    (p : OrderPricingStep → Bool) (xs : List OrderPricingStep) → any p (sort_steps xs) ≡ any p xs
unfolding sort_steps
any-sort_steps p [] = refl
any-sort_steps p (x ∷ xs) =
    any-insert_step p x (sort_steps xs) ∙ ap (λ b. p x || b) (any-sort_steps p xs)

pub is_complete-sort :
    (texts : Texts) (steps : List OrderPricingStep) (extras : List OrderPricingExtraRate)
    → is_complete texts (sort_steps steps) extras ≡ is_complete texts steps extras
unfolding is_complete
is_complete-sort texts steps extras =
    ap
      (λ (g : (OrderPricingStep → Bool) → Bool).
        all_of (λ t. all_of (λ r. g (is_step_of texts t r)) order_rank_progression)
          rank_priced_order_service_types
        && all_of (λ t. any (λ (x : OrderPricingExtraRate). same x.type t) extras)
            order_extra_types)
      (fun_ext (λ p. any-sort_steps p steps))
