-- ===== src/Orders/Catalog.antt =====
-- The pricing versions and who changes them: apps/api/src/modules/orders/application/
-- order-pricing-version.rules.ts, the four use cases on pricing versions and
-- infrastructure/repositories/prisma-order-pricing-version.repository.ts. `trim`, and
-- `Number(x.toFixed(2))` and `Number(x.toFixed(4))`, are parameters; new ids and times are
-- arguments.
pub mod Steps
pub mod Versions
mod Tests
use mathlib.Core.Option
use elonew.Base.{
  ℕ, suc, String, Bool, true, false, not, ◌&&◌, List, [], ◌∷◌, Option, none, some, any, same,
  is_some, if◌then◌else◌, map, length, ltb, leb, Dict, lookup, insert,
}
use elonew.Base.Int.{ℤ}
use elonew.Common.Errors.{
  DomainError, Result, ok, err, order_pricing_version_incomplete, order_pricing_version_not_found,
  order_pricing_version_immutable, order_pricing_version_name_invalid,
  order_pricing_version_active_conflict, plain_error,
}
use elonew.Common.Action.{Action, ◌>>=◌, ◌>>◌, pure, gets, attempt, or_throw, throw_if, transaction}
use elonew.Money.Double.{Double}
use elonew.Orders.Entity.{OrderServiceType, elo_boost, duo_boost, md5, coaching}
use elonew.Orders.PricingVersion.{Texts, OrderPricingStep, OrderPricingExtraRate, order_extra_types}
use elonew.Orders.Eligibility.{order_rank_progression}

pub data OrderPricingVersionStatus : Type 0 where
  draft active archived : OrderPricingVersionStatus

-- `OrderPricingVersionSnapshot`, and the row that it is read from.
pub record VersionRow : Type 0 where
  pub id : String
  pub name : String
  pub status : OrderPricingVersionStatus
  pub created_at : ℕ
  pub updated_at : ℕ
  pub activated_at : Option ℕ
  pub steps : List OrderPricingStep
  pub extras : List OrderPricingExtraRate

-- The table.
abbrev pub Versions : Type 0
Versions = Dict VersionRow

-- What the rules call.
pub record Formats : Type 0 where
  pub texts : Texts
  pub trim : String → String
  pub to_fixed_2 : ℤ → ℤ
  pub to_fixed_4 : Double → Double

unfoldable pub normalize_order_pricing_version_name : Formats → String → Result String
normalize_order_pricing_version_name f name =
    if same (f.trim name) "" then err order_pricing_version_name_invalid else ok (f.trim name)

abbrev pub normalize_pricing_step : Formats → OrderPricingStep → OrderPricingStep
normalize_pricing_step f s = record {
  service_type = s.service_type;
  league = f.texts.lower s.league;
  division = f.texts.upper s.division;
  price_to_next = f.to_fixed_2 s.price_to_next;
}

abbrev pub normalize_pricing_extra : Formats → OrderPricingExtraRate → OrderPricingExtraRate
normalize_pricing_extra f x = record { type = x.type; modifier_rate = f.to_fixed_4 x.modifier_rate }

abbrev pub same_service : OrderServiceType → OrderServiceType → Bool
same_service elo_boost elo_boost = true
same_service duo_boost duo_boost = true
same_service md5 md5 = true
same_service coaching coaching = true
same_service _ _ = false

-- `rankPricedOrderServiceTypes`
abbrev pub rank_priced_order_service_types : List OrderServiceType
rank_priced_order_service_types = elo_boost ∷ duo_boost ∷ []

unfoldable pub all_of {ℓ} : {A : Type ℓ} → (A → Bool) → List A → Bool
all_of p [] = true
all_of p (x ∷ xs) = p x && all_of p xs

abbrev pub is_step_of : Texts → OrderServiceType → String × String → OrderPricingStep → Bool
is_step_of texts service_type (league, division) s =
    same_service s.service_type service_type
    && same (texts.lower s.league) league
    && same (texts.upper s.division) division

-- What `assertOrderPricingVersionComplete` looks for.
unfoldable pub is_complete : Texts → List OrderPricingStep → List OrderPricingExtraRate → Bool
is_complete texts steps extras =
    all_of (λ t. all_of (λ r. any (is_step_of texts t r) steps) order_rank_progression)
      rank_priced_order_service_types
    && all_of (λ t. any (λ (x : OrderPricingExtraRate). same x.type t) extras) order_extra_types

unfoldable pub assert_order_pricing_version_complete :
    Texts → List OrderPricingStep → List OrderPricingExtraRate → Result (Unit {0})
unfolding is_complete
assert_order_pricing_version_complete texts steps extras =
    if is_complete texts steps extras then ok tt else err order_pricing_version_incomplete

-- The order that `localeCompare` puts the names of the services in.
abbrev service_rank : OrderServiceType → ℕ
service_rank coaching = 0
service_rank duo_boost = 1
service_rank elo_boost = 2
service_rank md5 = 3

-- The index of a step's rank in the progression, and for an unknown rank one past its end.
abbrev progression_index : OrderPricingStep → List (String × String) → ℕ
progression_index s [] = 0
progression_index s ((league, division) ∷ rest) =
    if same league s.league && same division s.division then 0 else suc (progression_index s rest)

unfoldable pub comes_before : OrderPricingStep → OrderPricingStep → Bool
comes_before left right =
    if same_service left.service_type right.service_type
    then ltb (progression_index left order_rank_progression)
        (progression_index right order_rank_progression)
    else ltb (service_rank left.service_type) (service_rank right.service_type)

-- The stable sort of `mapVersion`, by insertion.
unfoldable pub insert_step : OrderPricingStep → List OrderPricingStep → List OrderPricingStep
insert_step s [] = s ∷ []
insert_step s (x ∷ xs) = if comes_before x s then x ∷ insert_step s xs else s ∷ x ∷ xs

unfoldable pub sort_steps : List OrderPricingStep → List OrderPricingStep
sort_steps [] = []
sort_steps (x ∷ xs) = insert_step x (sort_steps xs)

-- `mapVersion`
abbrev pub map_version : VersionRow → VersionRow
map_version r = record r { steps = sort_steps r.steps }

abbrev pub is_active : VersionRow → Bool
is_active r = elim r.status [ draft ↦ false | active ↦ true | archived ↦ false ]

abbrev pub is_draft : VersionRow → Bool
is_draft r = elim r.status [ draft ↦ true | active ↦ false | archived ↦ false ]

unfoldable pub active_rows : Versions → List VersionRow
active_rows [] = []
active_rows ((id, r) ∷ d) = if is_active r then r ∷ active_rows d else active_rows d

-- `findActive`
unfoldable pub find_active : Action Versions (Option VersionRow)
find_active d = elim (active_rows d) [
  | [] ↦ (ok none, d)
  | r ∷ [] ↦ (ok (some (map_version r)), d)
  | r ∷ q ∷ rest ↦ (err order_pricing_version_active_conflict, d)
]

-- `findById`
unfoldable pub find_version : String → Action Versions (Option VersionRow)
find_version id = gets (λ d. Option.map map_version (lookup id d))

-- `findUnique`, inside the repository
abbrev pub find_unique : String → Action Versions (Option VersionRow)
find_unique id = gets (λ d. lookup id d)

abbrev pub write_row : String → VersionRow → Action Versions VersionRow
write_row id r d = (ok (map_version r), insert id r d)

-- `createDraft`; an id that is taken violates the primary key.
unfoldable pub create_draft_version :
    String
    → ℕ
    → String
    → List OrderPricingStep
    → List OrderPricingExtraRate
    → Action Versions VersionRow
create_draft_version id now name steps extras = do
  taken ← gets (λ d. is_some (lookup id d))
  throw_if taken plain_error
  write_row id (record {
    id = id;
    name = name;
    status = draft;
    created_at = now;
    updated_at = now;
    activated_at = none;
    steps = steps;
    extras = extras;
  })

unfoldable pub replace_draft :
    String
    → ℕ
    → String
    → List OrderPricingStep
    → List OrderPricingExtraRate
    → Action Versions VersionRow
replace_draft id now name steps extras = do
  found ← find_unique id
  row ← or_throw found order_pricing_version_not_found
  throw_if (not (is_draft row)) order_pricing_version_immutable
  write_row id (record row { name = name; steps = steps; extras = extras; updated_at = now })

-- `updateMany({ where: { status: 'ACTIVE' }, data: { status: 'ARCHIVED' } })`
abbrev pub archived_row : ℕ → VersionRow → VersionRow
archived_row now r = if is_active r then record r { status = archived; updated_at = now } else r

unfoldable pub archive_active : ℕ → Versions → Versions
archive_active now [] = []
archive_active now ((id, r) ∷ d) = (id, archived_row now r) ∷ archive_active now d

-- `activate`: one transaction. It leaves one active version, so the unique index does not stop it.
unfoldable pub activate : String → ℕ → Action Versions VersionRow
unfolding archive_active
activate id now = transaction (do
  found ← find_unique id
  row ← or_throw found order_pricing_version_not_found
  throw_if (not (is_draft row)) order_pricing_version_immutable
  (λ d. (ok tt, archive_active now d))
  write_row id (record row { status = active; activated_at = some now; updated_at = now }))

-- create-order-pricing-version.use-case.ts
unfoldable pub create_order_pricing_version :
    Formats
    → String
    → ℕ
    → String
    → List OrderPricingStep
    → List OrderPricingExtraRate
    → Action Versions VersionRow
unfolding create_draft_version
create_order_pricing_version f id now name steps extras = do
  normalized ← attempt (normalize_order_pricing_version_name f name)
  create_draft_version id now normalized (map (normalize_pricing_step f) steps)
      (map (normalize_pricing_extra f) extras)

-- update-order-pricing-version.use-case.ts
unfoldable pub update_order_pricing_version :
    Formats
    → String
    → ℕ
    → String
    → List OrderPricingStep
    → List OrderPricingExtraRate
    → Action Versions VersionRow
unfolding replace_draft
update_order_pricing_version f id now name steps extras = do
  normalized ← attempt (normalize_order_pricing_version_name f name)
  replace_draft id now normalized (map (normalize_pricing_step f) steps)
      (map (normalize_pricing_extra f) extras)

-- activate-order-pricing-version.use-case.ts
unfoldable pub activate_order_pricing_version : Formats → String → ℕ → Action Versions VersionRow
unfolding find_version activate
activate_order_pricing_version f id now = do
  found ← find_version id
  row ← or_throw found order_pricing_version_not_found
  attempt (assert_order_pricing_version_complete f.texts row.steps row.extras)
  activate id now
