-- ===== src/Orders/Outcomes.antt =====
-- What the order's use cases leave in the tables when they succeed.
-- Code: apps/api/src/modules/orders/application/use-cases
use elonew.Base.{
  ℕ, String, false, Option, none, some, ◌≡◌, ◌≢◌, arith, eq_iff, lookup, truthy, lookup-insert_self,
  lookup-insert_ne,
}
use elonew.Common.Errors.{ok}
use elonew.Orders.Status.{OrderStatus, in_progress, pending_booster, completed, cancelled}
use elonew.Orders.Entity.{
  OrderCredentials, reject_by_booster, clear_booster_assignment, accept_by_booster, confirm_payment,
  assign_booster, cancel, complete, set_credentials,
}
use elonew.Orders.Repository.{OrderRow, map_order_from_record, save_with_client, IsReadable}
use elonew.Orders.UseCases.{
  accept_order, reject_order, complete_order, cancel_order, mark_order_as_paid,
  save_order_credentials, clear_order_credentials, reveal_order_credentials,
}
use elonew.Wallet.UseCases.{credit_completed_order_earnings, credit_earnings_of_payment}
use elonew.Platform.World.{World}

-- What the tables hold of an order: its status, its booster, its credentials.
abbrev pub essentials :
    Option OrderRow → Option (OrderStatus × Option String × Option OrderCredentials)
essentials none = none
essentials (some r) = some (r.status, r.booster_id, r.credentials)

-- A booster who accepts a paid order that has no booster, whose row stands under its id and can be
-- read, succeeds: the order is in progress, is theirs, and keeps its credentials.
pub accept_order_free :
    (booster : String) (deadline : ℕ) (w : World) {r : OrderRow}
    → lookup r.id w.orders ≡ some r
    → r.status ≡ pending_booster
    → truthy r.booster_id ≡ false
    → IsReadable r
    → ((accept_order r.id booster deadline w).0 ≡ ok tt)
      × (essentials (lookup r.id (accept_order r.id booster deadline w).1.orders)
          ≡ some (in_progress, some booster, r.credentials))
unfolding accept_order accept_by_booster assign_booster map_order_from_record save_with_client
accept_order_free booster deadline w {r} found st free readable = grind (arith, lookup-insert_self)

-- Marking an order as paid a second time, at once, succeeds and changes nothing, where its row stands
-- under its id and can be read.
pub mark_order_as_paid_again :
    (w : World) {r : OrderRow}
    → lookup r.id w.orders ≡ some r
    → IsReadable r
    → mark_order_as_paid r.id (mark_order_as_paid r.id w).1 ≡ (ok tt, (mark_order_as_paid r.id w).1)
unfolding mark_order_as_paid confirm_payment map_order_from_record save_with_client
mark_order_as_paid_again w {r} found readable = grind (arith, lookup-insert_self)

-- A cancelled order keeps no credentials.
pub cancel_order-credentials :
    (user : String) (w : World) {r : OrderRow}
    → lookup r.id w.orders ≡ some r
    → (cancel_order r.id user w).0 ≡ ok tt
    → essentials (lookup r.id (cancel_order r.id user w).1.orders)
      ≡ some (cancelled, r.booster_id, none)
unfolding cancel_order cancel map_order_from_record save_with_client
cancel_order-credentials user w {r} found h = grind (arith, lookup-insert_self)

-- A completion that succeeds, of an order whose row stands under its id, leaves it completed, with
-- the booster who completed it, and without credentials.
pub complete_order-credentials :
    (user tx : String) (period now : ℕ) (w : World) {r : OrderRow}
    → lookup r.id w.orders ≡ some r
    → (complete_order tx period r.id user now w).0 ≡ ok tt
    → essentials (lookup r.id (complete_order tx period r.id user now w).1.orders)
      ≡ some (completed, some user, none)
unfolding complete_order complete map_order_from_record save_with_client credit_earnings_of_payment
    credit_completed_order_earnings
complete_order-credentials user tx period now w {r} found h =
    grind (arith, lookup-insert_self, eq_iff)

-- Where storing credentials succeeds, for an order whose row stands under its id, they are in the
-- row, the password was confirmed, the order is the client's, and its status and booster are as
-- they were.
pub save_order_credentials_frame :
    (client again : String) (c : OrderCredentials) (w : World) {r : OrderRow}
    → lookup r.id w.orders ≡ some r
    → (save_order_credentials r.id client c again w).0 ≡ ok tt
    → (essentials (lookup r.id (save_order_credentials r.id client c again w).1.orders)
        ≡ some (r.status, r.booster_id, some c))
      × (c.password ≡ again)
      × (r.client_id ≡ some client)
unfolding save_order_credentials set_credentials map_order_from_record save_with_client
save_order_credentials_frame client again c w {r} found h =
    grind (arith, lookup-insert_self, eq_iff)

-- Where credentials are revealed to a booster, they are those of an order that is in progress and
-- theirs.
pub reveal-guard :
    (id booster : String) (w : World) {c : OrderCredentials}
    → (reveal_order_credentials id booster w).0 ≡ ok c
    → essentials (lookup id w.orders) ≡ some (in_progress, some booster, some c)
unfolding reveal_order_credentials
reveal-guard id booster w h = grind (arith, eq_iff)

-- Accepting, rejecting, completing, cancelling and paying an order, and storing or clearing its
-- credentials, leave the row of every other order as it is, where the order's row stands under its
-- id.
pub other_orders_stay :
    (other user tx again : String) (period now : ℕ) (c : OrderCredentials) (w : World)
    {r : OrderRow}
    → lookup r.id w.orders ≡ some r
    → r.id ≢ other
    → (lookup other (accept_order r.id user now w).1.orders ≡ lookup other w.orders)
      × (lookup other (reject_order r.id user w).1.orders ≡ lookup other w.orders)
      × (lookup other (complete_order tx period r.id user now w).1.orders ≡ lookup other w.orders)
      × (lookup other (cancel_order r.id user w).1.orders ≡ lookup other w.orders)
      × (lookup other (mark_order_as_paid r.id w).1.orders ≡ lookup other w.orders)
      × (lookup other (save_order_credentials r.id user c again w).1.orders ≡ lookup other w.orders)
      × (lookup other (clear_order_credentials r.id w).1.orders ≡ lookup other w.orders)
unfolding accept_order accept_by_booster assign_booster reject_order reject_by_booster
    clear_booster_assignment complete_order credit_earnings_of_payment
    credit_completed_order_earnings cancel_order cancel complete mark_order_as_paid confirm_payment
    save_order_credentials set_credentials clear_order_credentials map_order_from_record
other_orders_stay other user tx again period now c w {r} found ne = (
  grind (arith, lookup-insert_ne),
  grind (arith, lookup-insert_ne),
  grind (arith, lookup-insert_ne),
  grind (arith, lookup-insert_ne),
  grind (arith, lookup-insert_ne),
  grind (arith, lookup-insert_ne),
  grind (arith, lookup-insert_ne),
)
