-- ===== src/Orders/Pricing.antt =====
-- apps/api/src/modules/orders/infrastructure/pricing/versioned-order-pricing.service.ts: the price
-- of a quote by the active pricing version. Prices are in cents. What the runtime makes of a text,
-- whose rules are Unicode's and ECMAScript's, is the parameter `texts`.
use elonew.Base.{
  ℕ, String, Bool, true, false, ◌&&◌, ◌||◌, not, List, [], ◌∷◌, Option, none, some, find, same,
  is_some, or_else, ltb, if◌then◌else◌,
}
use elonew.Base.Int.{ℤ, pos, ◌+ℤ◌, leb_ℤ}
use elonew.Common.Errors.{
  Result, ok, err, ◌then_do◌, order_unsupported_pricing_service_type,
  order_rank_progression_invalid, order_rank_not_priced, order_pricing_version_not_active,
  order_pricing_version_incomplete,
}
use elonew.Money.Double.{double_of, div_double}
use elonew.Money.Amount.{Money, from_cents, add, subtract, percentage}
use elonew.Orders.Entity.{OrderServiceType, elo_boost, duo_boost, md5, coaching, OrderPricedExtra}
use elonew.Orders.PricingVersion.{
  Texts, OrderPricingStep, OrderPricingExtraRate, OrderPricingVersion, OrderQuoteRequestDetails,
  OrderPricingSnapshot, is_order_extra_type,
}

abbrev pub is_service_type : OrderServiceType → OrderServiceType → Bool
is_service_type elo_boost elo_boost = true
is_service_type duo_boost duo_boost = true
is_service_type md5 md5 = true
is_service_type coaching coaching = true
is_service_type _ _ = false

-- `version.steps.filter(...)`
unfoldable pub steps_of : OrderServiceType → List OrderPricingStep → List OrderPricingStep
steps_of t [] = []
steps_of t (s ∷ ss) =
    let rest = steps_of t ss in if is_service_type s.service_type t then s ∷ rest else rest

unfoldable pub get_price_table :
    OrderPricingVersion → OrderServiceType → Result (List OrderPricingStep)
get_price_table version t = elim (steps_of t version.steps) [
  | [] ↦ err order_rank_not_priced
  | s ∷ ss ↦ ok (s ∷ ss)
]

-- `reduce((total, item) => total + item.priceToNext, 0)`
unfoldable pub total_price : List OrderPricingStep → ℤ
total_price [] = pos 0
total_price (s ∷ ss) = s.price_to_next +ℤ total_price ss

abbrev pub is_at : String → String → OrderPricingStep → Bool
is_at league division s = same s.league league && same s.division division

-- The steps before the first one at this rank; `none` where there is none.
unfoldable pub before_rank :
    String → String → List OrderPricingStep → Option (List OrderPricingStep)
before_rank league division [] = none
before_rank league division (s ∷ ss) =
    let rest = before_rank league division ss in
    if is_at league division s then some [] else elim rest [ none ↦ none | some l ↦ some (s ∷ l) ]

unfoldable pub get_cumulative_value : List OrderPricingStep → OrderPricingStep → Result ℤ
get_cumulative_value table entry = elim (before_rank entry.league entry.division table) [
  | none ↦ err order_rank_not_priced
  | some l ↦ ok (total_price l)
]

module _ (texts : Texts) where
  -- `none` is a number outside 0 to 250, or no whole number.
  unfoldable pub parse_master_pdl_from_division : String → Option ℕ
  parse_master_pdl_from_division division = elim (texts.number division) [
    | none ↦ none
    | some pdl ↦ if ltb 250 pdl then none else some pdl
  ]

  unfoldable pub get_master_pdl_from_division : String → ℕ
  unfolding parse_master_pdl_from_division
  get_master_pdl_from_division division = or_else (parse_master_pdl_from_division division) 0

  unfoldable pub is_master_division : String → Bool
  unfolding parse_master_pdl_from_division
  is_master_division division =
      same (texts.upper division) "MASTER" || is_some (parse_master_pdl_from_division division)

  unfoldable pub is_master_rank : String → String → Bool
  unfolding is_master_division
  is_master_rank league division = same (texts.lower league) "master" && is_master_division division

  unfoldable pub normalize_division_for_rank : String → String → String
  unfolding is_master_division
  normalize_division_for_rank league division =
      if same league "master" && is_master_division division then "MASTER" else texts.upper division

  unfoldable pub find_entry : List OrderPricingStep → String → String → Option OrderPricingStep
  unfolding normalize_division_for_rank
  find_entry table league division =
      find (is_at (texts.lower league) (normalize_division_for_rank (texts.lower league) division))
        table

  unfoldable pub get_rank_progress : String → String → ℕ → ℕ
  unfolding is_master_rank get_master_pdl_from_division
  get_rank_progress league division current_lp =
      if not (is_master_rank league division)
      then current_lp
      else if same (texts.upper division) "MASTER"
      then current_lp
      else get_master_pdl_from_division division

  -- `Money.fromCents(value).add(Money.fromCents(price).percentage(progress / 100)).cents`
  unfoldable pub advanced : ℤ → ℤ → ℕ → Result ℤ
  advanced value price progress = from_cents value then_do λ v. from_cents price then_do λ p.
      percentage (some (div_double (double_of progress) 100)) p then_do λ part.
      add v part then_do λ sum. ok sum.cents

  unfoldable pub get_target_value :
      List OrderPricingStep → String → String → Option OrderPricingStep → Result ℤ
  unfolding is_master_rank get_master_pdl_from_division advanced
  get_target_value table league division (some entry) =
      get_cumulative_value table entry then_do λ target.
      if not (is_master_rank league division)
      then ok target
      else advanced target entry.price_to_next (get_master_pdl_from_division division)
  get_target_value table league division none =
      if is_master_rank league division then ok (total_price table) else err order_rank_not_priced

  -- One step of `extras.map`.
  unfoldable pub price_extra : OrderPricingVersion → Money → String → Result OrderPricedExtra
  price_extra version base type =
      if not (is_order_extra_type type)
      then err order_pricing_version_incomplete
      else elim (find (λ (r : OrderPricingExtraRate). same r.type type) version.extras) [
        | none ↦ err order_pricing_version_incomplete
        | some rate ↦ percentage (some rate.modifier_rate) base then_do λ price.
            ok (record { type = type; price = price.cents })
      ]

  unfoldable pub price_extras :
      OrderPricingVersion → Money → List String → Result (List OrderPricedExtra)
  price_extras version base [] = ok []
  price_extras version base (t ∷ ts) =
      price_extra version base t then_do λ e. price_extras version base ts then_do λ es. ok (e ∷ es)

  -- `extras.reduce`
  unfoldable pub add_extras : List OrderPricedExtra → Money → Result Money
  add_extras [] total = ok total
  add_extras (e ∷ es) total =
      from_cents e.price then_do λ p. add total p then_do λ sum. add_extras es sum

  -- What the rank progression itself costs.
  unfoldable pub base_subtotal : OrderPricingVersion → OrderQuoteRequestDetails → Result Money
  unfolding find_entry get_rank_progress advanced get_target_value get_cumulative_value
  base_subtotal version input = get_price_table version input.service_type then_do λ table.
      elim (find_entry table input.current_league input.current_division) [
        | none ↦ err order_rank_not_priced
        | some entry ↦ get_cumulative_value table entry then_do λ below.
            advanced below entry.price_to_next
              (get_rank_progress input.current_league input.current_division input.current_lp)
            then_do λ current.
                get_target_value table input.desired_league input.desired_division
                  (find_entry table input.desired_league input.desired_division)
                then_do λ target. from_cents target then_do λ desired.
                    subtract desired (record { cents = current })
      ]

  -- `calculate`; the version is the one that `findActive` answers.
  unfoldable pub calculate :
      Option OrderPricingVersion → OrderQuoteRequestDetails → Result OrderPricingSnapshot
  unfolding base_subtotal price_extras add_extras
  calculate active input =
      if not (
        is_service_type input.service_type elo_boost
        || is_service_type input.service_type duo_boost)
      then err order_unsupported_pricing_service_type
      else elim active [
        | none ↦ err order_pricing_version_not_active
        | some version ↦ base_subtotal version input then_do λ base.
            if leb_ℤ base.cents (pos 0)
            then err order_rank_progression_invalid
            else (price_extras version base input.extras then_do λ extras.
                add_extras extras base then_do λ subtotal. ok (record {
                  pricing_version_id = version.id;
                  subtotal = subtotal.cents;
                  total_amount = subtotal.cents;
                  discount_amount = pos 0;
                  extras = extras;
                }))
      ]
