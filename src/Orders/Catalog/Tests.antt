-- ===== src/Orders/Catalog/Tests.antt =====
-- The theorems on pricing versions at concrete inputs.
-- Code: apps/api/src/modules/orders, the pricing versions
use elonew.Orders.Catalog.Versions.{run_call}
use elonew.Orders.Catalog.{
  activate_order_pricing_version, create_order_pricing_version,
  normalize_order_pricing_version_name, assert_order_pricing_version_complete, all_of,
}
use elonew.Base.{insert}
use elonew.Base.{String, List, [], ◌∷◌, ◌++◌, map, none, some, ◌⊎◌, ◌≡◌, refl, true, lookup}
use elonew.Base.Int.{pos}
use elonew.Common.Errors.{ok}
use elonew.Orders.Entity.{OrderServiceType, elo_boost, duo_boost}
use elonew.Orders.PricingVersion.{OrderPricingStep, OrderPricingExtraRate, order_extra_types}
use elonew.Orders.Eligibility.{order_rank_progression}
use elonew.Orders.Catalog.{VersionRow, Formats, active, is_complete, find_active}
use elonew.Orders.Catalog.Versions.{
  Call, creates, updates, activates, run_calls, sold_prices_stay, active_version_complete,
}

abbrev formats : Formats
formats = record {
  texts = record { lower = λ s. s; upper = λ s. s; number = λ s. none };
  trim = λ s. s;
  to_fixed_2 = λ n. n;
  to_fixed_4 = λ x. x;
}

abbrev step_at : OrderServiceType → String × String → OrderPricingStep
step_at service (league, division) = record {
  service_type = service;
  league = league;
  division = division;
  price_to_next = pos 1000;
}

abbrev steps : List OrderPricingStep
steps =
    map (step_at elo_boost) order_rank_progression ++ map (step_at duo_boost) order_rank_progression

abbrev extras : List OrderPricingExtraRate
extras =
    map (λ t. record { type = t; modifier_rate = record { mant = 1; scale = 3 } }) order_extra_types

abbrev requests : List Call
requests =
    creates "v1" 1 "spring" steps extras
    ∷ activates "v1" 2
    ∷ creates "v2" 3 "summer" steps extras
    ∷ activates "v2" 4
    ∷ updates "v1" 5 "late" [] []
    ∷ []

abbrev sold : VersionRow
sold = record {
  id = "v1";
  name = "spring";
  status = active;
  created_at = 1;
  updated_at = 2;
  activated_at = some 2;
  steps = steps;
  extras = extras;
}

-- The first version is on sale after two requests.
first_on_sale :
    lookup "v1"
      (run_calls formats (creates "v1" 1 "spring" steps extras ∷ activates "v1" 2 ∷ []) [])
    ≡ some sold
unfolding lookup run_calls run_call activate_order_pricing_version create_order_pricing_version
    normalize_order_pricing_version_name insert assert_order_pricing_version_complete all_of
    order_rank_progression elonew.Orders.Catalog.sort_steps elonew.Orders.Catalog.insert_step
    elonew.Orders.Catalog.comes_before
first_on_sale = refl

sold_prices_stay_example :
    (r' : VersionRow) × (lookup "v1" (run_calls formats requests (("v1", sold) ∷ [])) ≡ some r')
    × (r'.name ≡ "spring")
    × (r'.steps ≡ steps)
    × (r'.extras ≡ extras)
unfolding lookup
sold_prices_stay_example =
    sold_prices_stay formats requests "v1" (("v1", sold) ∷ []) {r = sold} refl refl

active_version_complete_example :
    let d = run_calls formats requests [] in
    (find_active d ≡ (ok none, d))
    ⊎ ((r : VersionRow) × (find_active d ≡ (ok (some r), d))
        × (is_complete formats.texts r.steps r.extras ≡ true))
active_version_complete_example = active_version_complete formats requests
