-- ===== src/Orders/Repository.antt =====
-- apps/api/src/modules/orders/infrastructure/repositories/prisma-order.repository.ts: an order as a
-- row of the `order` table with its credentials row, written and read back. The credentials are
-- kept as they are sealed and opened, so their encryption does not show.
pub mod Saved
use elonew.Base.{
  ℕ, String, Bool, true, false, ◌||◌, List, [], ◌∷◌, Option, none, some, ◌≡◌, same, is_some,
  or_else, if◌then◌else◌,
}
use elonew.Base.Int.{ℤ}
use elonew.Orders.Status.{OrderStatus}
use elonew.Orders.Entity.{
  Order, OrderCredentials, OrderRequestDetails, OrderServiceType, elo_boost, duo_boost, md5,
  coaching, OrderPricedExtra, has_credentials,
}
use elonew.Common.Errors.{Result, ok, err, ◌then_do◌, plain_error}
use elonew.Orders.PricingVersion.{is_order_extra_type}

-- The enum `ServiceType` of packages/database/prisma/schema.prisma.
pub data ServiceTypeColumn : Type 0 where
  elo_boost_column duo_boost_column md5_column coaching_column : ServiceTypeColumn

-- `mapServiceTypeToPersistence`
unfoldable pub map_service_type_to_persistence : OrderServiceType → ServiceTypeColumn
map_service_type_to_persistence elo_boost = elo_boost_column
map_service_type_to_persistence duo_boost = duo_boost_column
map_service_type_to_persistence md5 = md5_column
map_service_type_to_persistence coaching = coaching_column

-- `mapServiceTypeFromPersistence`: the column holds no other value that it could throw on.
unfoldable pub map_service_type_from_persistence : ServiceTypeColumn → OrderServiceType
map_service_type_from_persistence elo_boost_column = elo_boost
map_service_type_from_persistence duo_boost_column = duo_boost
map_service_type_from_persistence md5_column = md5
map_service_type_from_persistence coaching_column = coaching

pub record DetailsColumns : Type 0 where
  pub service_type : Option ServiceTypeColumn
  pub summoner_name : Option String
  pub current_league : Option String
  pub current_division : Option String
  pub current_lp : Option ℕ
  pub desired_league : Option String
  pub desired_division : Option String
  pub server : Option String
  pub desired_queue : Option String
  pub lp_gain : Option ℕ
  pub deadline : Option ℕ

pub record OrderRow : Type 0 where
  pub id : String
  pub client_id : Option String
  pub booster_id : Option String
  pub coupon_id : Option String
  pub pricing_version_id : Option String
  pub status : OrderStatus
  pub details : DetailsColumns
  pub subtotal : Option ℤ
  pub total_amount : Option ℤ
  pub discount_amount : ℤ
  pub completed_at : Option ℕ
  pub extras : List OrderPricedExtra
  pub credentials : Option OrderCredentials

-- `s || null`
abbrev pub non_empty : String → Option String
non_empty s = if same s "" then none else some s

abbrev pub details_summoner_name : Option OrderRequestDetails → Option String
details_summoner_name none = none
details_summoner_name (some d) = non_empty d.summoner_name

unfoldable pub map_request_details : Option OrderRequestDetails → DetailsColumns
map_request_details none = record {
  service_type = none;
  summoner_name = none;
  current_league = none;
  current_division = none;
  current_lp = none;
  desired_league = none;
  desired_division = none;
  server = none;
  desired_queue = none;
  lp_gain = none;
  deadline = none;
}
map_request_details (some d) = record {
  service_type = some (map_service_type_to_persistence d.service_type);
  summoner_name = non_empty d.summoner_name;
  current_league = some d.current_league;
  current_division = some d.current_division;
  current_lp = some d.current_lp;
  desired_league = some d.desired_league;
  desired_division = some d.desired_division;
  server = some d.server;
  desired_queue = some d.desired_queue;
  lp_gain = some d.lp_gain;
  deadline = d.deadline;
}

-- A column that is null or empty: `!record.server`.
abbrev filled : Option String → Option String
filled none = none
filled (some s) = non_empty s

infixl 5 ◌and_then◌
abbrev ◌and_then◌ {ℓ κ} : {A : Type ℓ} {B : Type κ} → Option A → (A → Option B) → Option B
none and_then f = none
some a and_then f = f a

unfoldable pub map_request_details_from_record : DetailsColumns → Option OrderRequestDetails
map_request_details_from_record r = r.service_type and_then λ service_type.
    filled r.current_league and_then λ current_league.
    filled r.current_division and_then λ current_division. r.current_lp and_then λ current_lp.
    filled r.desired_league and_then λ desired_league.
    filled r.desired_division and_then λ desired_division. filled r.server and_then λ server.
    filled r.desired_queue and_then λ desired_queue. r.lp_gain and_then λ lp_gain. some (record {
      service_type = map_service_type_from_persistence service_type;
      summoner_name = or_else r.summoner_name "";
      current_league = current_league;
      current_division = current_division;
      current_lp = current_lp;
      desired_league = desired_league;
      desired_division = desired_division;
      server = server;
      desired_queue = desired_queue;
      lp_gain = lp_gain;
      deadline = r.deadline;
    })

-- `mapExtraFromRecord` of every extra: one that throws ends the call.
unfoldable pub map_extras_from_record : List OrderPricedExtra → Result (List OrderPricedExtra)
map_extras_from_record [] = ok []
map_extras_from_record (x ∷ xs) = elim (is_order_extra_type x.type) [
  | true ↦ map_extras_from_record xs then_do λ ys. ok (x ∷ ys)
  | false ↦ err plain_error
]

abbrev pub order_of : OrderRow → List OrderPricedExtra → Order
order_of r extras = record {
  id = r.id;
  client_id = r.client_id;
  booster_id = r.booster_id;
  coupon_id = r.coupon_id;
  pricing_version_id = r.pricing_version_id;
  status = r.status;
  pending_credentials = none;
  request_details = map_request_details_from_record r.details;
  subtotal = r.subtotal;
  total_amount = r.total_amount;
  discount_amount = r.discount_amount;
  extras = extras;
  completed_at = r.completed_at;
  stored_credentials = is_some r.credentials;
}

-- `mapOrderFromRecord`. The column of the status is the enum that the domain has.
unfoldable pub map_order_from_record : OrderRow → Result Order
unfolding map_request_details_from_record
map_order_from_record r = map_extras_from_record r.extras then_do λ extras. ok (order_of r extras)

-- A row that is read without a throw: its extras are of types that the program knows.
abbrev pub IsReadable : OrderRow → Type 0
IsReadable r = map_extras_from_record r.extras ≡ ok r.extras

abbrev pub stored : Option OrderRow → Option OrderCredentials
stored none = none
stored (some r) = r.credentials

abbrev pending_or : Option OrderCredentials → Option OrderCredentials → Option OrderCredentials
pending_or none old = old
pending_or (some c) old = some c

-- `saveWithClient`: the row that the upsert leaves, from the order and the row that stood there.
-- Credentials that the order no longer has are deleted first; pending ones are written over the
-- stored ones; otherwise the stored ones stay.
unfoldable pub save_with_client : Order → Option OrderRow → OrderRow
unfolding map_request_details
save_with_client o old = record {
  id = o.id;
  client_id = o.client_id;
  booster_id = o.booster_id;
  coupon_id = o.coupon_id;
  pricing_version_id = o.pricing_version_id;
  status = o.status;
  details = map_request_details o.request_details;
  subtotal = o.subtotal;
  total_amount = o.total_amount;
  discount_amount = o.discount_amount;
  completed_at = o.completed_at;
  extras = o.extras;
  credentials = pending_or o.pending_credentials (if has_credentials o then stored old else none);
}
