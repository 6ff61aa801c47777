-- ===== src/Orders/Ports.antt =====
-- The order ports as their adapters serve them, over the tables of the world.
-- Code: apps/api/src/modules/orders/infrastructure/repositories/prisma-order.repository.ts,
-- apps/api/src/modules/orders/application/order-event.factory.ts,
-- apps/api/src/modules/orders/application/services/order-lifecycle-email.service.ts
use elonew.Base.{
  String, List, ◌∷◌, Option, none, some, any, same, holds_text, ◌&&◌, if◌then◌else◌, lookup, insert,
}
use elonew.Common.Errors.{Result, ◌then_do◌, ok, err, record_to_update_not_found, plain_error}
use elonew.Common.Action.{Action, modify}
use elonew.Orders.Status.{is_status}
use elonew.Orders.Entity.{Order, OrderCredentials, credentials_allowed_statuses}
use elonew.Orders.Repository.{
  OrderRow, map_order_from_record, save_with_client, details_summoner_name,
}
use elonew.Platform.World.{
  World, OrderEvent, OrderEventType, OrderEmail, event_published, email_sent, emit,
}

-- The order of the record that was found.
abbrev opened : Option OrderRow → Result (Option Order)
opened none = ok none
opened (some r) = map_order_from_record r then_do λ o. ok (some o)

unfoldable pub find_by_id : String → Action World (Option Order)
find_by_id id w = (opened (lookup id w.orders), w)

abbrev owned_by : String → Option OrderRow → Option OrderRow
owned_by client none = none
owned_by client (some r) = if holds_text r.client_id client then some r else none

unfoldable pub find_by_id_for_client : String → String → Action World (Option Order)
find_by_id_for_client id client w = (opened (owned_by client (lookup id w.orders)), w)

unfoldable pub save : Order → Action World (Unit {0})
save o w =
    (ok tt, record w { orders = insert o.id (save_with_client o (lookup o.id w.orders)) w.orders })

abbrev add_rejection : String → String → List (String × String) → List (String × String)
add_rejection order booster rs =
    if any (λ (r : String × String). same r.0 order && same r.1 booster) rs
    then rs
    else (order, booster) ∷ rs

-- The rejection and the order are written in one transaction.
unfoldable pub save_booster_rejection : Order → String → Action World (Unit {0})
save_booster_rejection o booster w = (
  ok tt,
  record w {
    rejections = add_rejection o.id booster w.rejections;
    orders = insert o.id (save_with_client o (lookup o.id w.orders)) w.orders;
  },
)

abbrev updatable : Option OrderRow → Option OrderRow
updatable none = none
updatable (some r) = if any (is_status r.status) credentials_allowed_statuses then some r else none

abbrev write_credentials : Order → OrderCredentials → Option OrderRow → Action World (Unit {0})
write_credentials o c none w = (err record_to_update_not_found, w)
write_credentials o c (some r) w = (
  ok tt,
  record w {
    orders =
        insert o.id
          (record r {
            details = record (r.details) {
              summoner_name = details_summoner_name o.request_details;
            };
            credentials = some c;
          })
          w.orders;
  },
)

-- Only the credential fields are written, and only while the row's status allows storing them.
unfoldable pub save_credentials : Order → Action World (Unit {0})
save_credentials o w = elim o.pending_credentials [
  | none ↦ (err plain_error, w)
  | some c ↦ write_credentials o c (updatable (lookup o.id w.orders)) w
]

unfoldable pub create_order_event : OrderEventType → Order → OrderEvent
create_order_event type o = record {
  type = type;
  order_id = o.id;
  client_id = o.client_id;
  booster_id = o.booster_id;
}

unfoldable pub publish : OrderEvent → Action World (Unit {0})
unfolding emit
publish e = modify (emit (event_published e))

abbrev send_to : OrderEmail → Order → Option String → World → World
send_to kind o none w = w
send_to kind o (some to) w = if same to "" then w else emit (email_sent kind o.id to) w

abbrev email_of : Option String → World → Option String
email_of none w = none
email_of (some client) w = if same client "" then none else lookup client w.emails

-- A failure of the mail service is caught and logged, so this never throws.
unfoldable pub send_order_email : OrderEmail → Order → Action World (Unit {0})
send_order_email kind o = modify (λ w. send_to kind o (email_of o.client_id w) w)
