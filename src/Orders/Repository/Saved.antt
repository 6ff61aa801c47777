-- ===== src/Orders/Repository/Saved.antt =====
-- An order that is saved and read back.
-- Code: apps/api/src/modules/orders/infrastructure/repositories/prisma-order.repository.ts
use mathlib.Core.Path.{subst}
use mathlib.Core.List.{Permᴰ}
use elonew.Base.{
  String, Bool, true, ◌||◌, List, [], ◌∷◌, Option, none, some, ◌≡◌, ◌≢◌, All, inl, inr, Bool-cases,
  refl, arith, eq_iff, is_some, or_else, if◌then◌else◌,
}
use elonew.Orders.Entity.{
  Order, OrderCredentials, OrderRequestDetails, OrderServiceType, elo_boost, duo_boost, md5,
  coaching, OrderPricedExtra, has_credentials,
}
use elonew.Common.Errors.{then_do-eq-ok, ok}
use elonew.Orders.PricingVersion.{is_order_extra_type}
use elonew.Orders.Repository.{
  map_service_type_to_persistence, map_service_type_from_persistence, OrderRow, non_empty,
  map_request_details, filled, map_request_details_from_record, map_extras_from_record,
  map_order_from_record, stored, pending_or, save_with_client,
}

service_type_round_trip :
    (t : OrderServiceType)
    → map_service_type_from_persistence (map_service_type_to_persistence t) ≡ t
unfolding map_service_type_from_persistence map_service_type_to_persistence
service_type_round_trip elo_boost = refl
service_type_round_trip duo_boost = refl
service_type_round_trip md5 = refl
service_type_round_trip coaching = refl

-- Request details that the table can hold: the reader takes an empty column for a missing one.
pub record IsComplete (d : OrderRequestDetails) : Type 0 where
  pub current_league : d.current_league ≢ ""
  pub current_division : d.current_division ≢ ""
  pub desired_league : d.desired_league ≢ ""
  pub desired_division : d.desired_division ≢ ""
  pub server : d.server ≢ ""
  pub desired_queue : d.desired_queue ≢ ""

filled_eq : (s : String) → s ≢ "" → filled (some s) ≡ some s
filled_eq s h = ground (arith, eq_iff s "")

summoner_name_eq : (s : String) → or_else (non_empty s) "" ≡ s
summoner_name_eq s = ground (arith, eq_iff s "")

-- Complete request details survive being written and read.
pub details_round_trip :
    (d : OrderRequestDetails)
    → IsComplete d
    → map_request_details_from_record (map_request_details (some d)) ≡ some d
unfolding map_request_details map_request_details_from_record
details_round_trip d c =
    rw
      (
        filled_eq d.current_league c.current_league,
        filled_eq d.current_division c.current_division,
        filled_eq d.desired_league c.desired_league,
        filled_eq d.desired_division c.desired_division,
        filled_eq d.server c.server,
        filled_eq d.desired_queue c.desired_queue,
        summoner_name_eq d.summoner_name,
        service_type_round_trip d.service_type,
      )
      refl

abbrev pub IsStorable : Option OrderRequestDetails → Type 0
IsStorable none = Unit
IsStorable (some d) = IsComplete d

request_details_round_trip :
    (d : Option OrderRequestDetails)
    → IsStorable d
    → map_request_details_from_record (map_request_details d) ≡ d
unfolding map_request_details map_request_details_from_record
request_details_round_trip none h = refl
request_details_round_trip (some d) h = details_round_trip d h

saved_credentials :
    (pending old : Option OrderCredentials) (known : Bool)
    → is_some old ≡ known
    → is_some (pending_or pending (if known || is_some pending then old else none))
      ≡ (known || is_some pending)
saved_credentials pending old known h = ground arith

abbrev Known : OrderPricedExtra → Type 0
Known x = is_order_extra_type x.type ≡ true

map_extras-Known : (xs : List OrderPricedExtra) → All Known xs → map_extras_from_record xs ≡ ok xs
unfolding map_extras_from_record is_order_extra_type
map_extras-Known [] known = refl
map_extras-Known (x ∷ xs) known =
    rw (map_extras_from_record, known.0, map_extras-Known xs known.1) refl

pub map_extras-same :
    (xs : List OrderPricedExtra) {ys : List OrderPricedExtra}
    → map_extras_from_record xs ≡ ok ys
    → ys ≡ xs
unfolding map_extras_from_record
map_extras-same [] h = ground arith
map_extras-same (x ∷ xs) {ys} h = elim (Bool-cases (is_order_extra_type x.type)) [
  | inl y ↦
      let (zs, e, q) =
        then_do-eq-ok (map_extras_from_record xs) (λ zs. ok (x ∷ zs)) {b = ys}
          (rw (map_extras_from_record, y) at h) in
      let same_rest = map_extras-same xs {ys = zs} e in ground (arith, q, same_rest)
  | inr n ↦ ground (arith, h, n)
]

Known-permutes : {xs ys : List OrderPricedExtra} → Permᴰ xs ys → All Known xs → All Known ys
Known-permutes Permᴰ.nil known = tt
Known-permutes (Permᴰ.cons e p) known = (subst Known e known.0, Known-permutes p known.1)
Known-permutes (Permᴰ.swap e f) (k, (l, rest)) = (subst Known f l, (subst Known e k, rest))
Known-permutes (Permᴰ.trans p q) known = Known-permutes q (Known-permutes p known)

-- An order that knows whether its row holds credentials, whose request details are missing or
-- complete, and whose extras are of known types, is read back as it was saved, with its extras in
-- whatever order the query answers them: its pending credentials are now stored, and nothing else has
-- changed.
pub save_round_trip :
    (o : Order) (old : Option OrderRow) (answered : List OrderPricedExtra)
    → IsStorable o.request_details
    → All Known o.extras
    → is_some (stored old) ≡ o.stored_credentials
    → Permᴰ (save_with_client o old).extras answered
    → map_order_from_record (record (save_with_client o old) { extras = answered })
      ≡ ok (record o {
        pending_credentials = none;
        stored_credentials = has_credentials o;
        extras = answered;
      })
unfolding map_order_from_record save_with_client
save_round_trip o old answered d known s shuffled =
    rw
      (
        map_extras-Known answered (Known-permutes shuffled known),
        request_details_round_trip o.request_details d,
        saved_credentials o.pending_credentials (stored old) o.stored_credentials s,
      )
      refl
