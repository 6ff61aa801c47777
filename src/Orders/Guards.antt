-- ===== src/Orders/Guards.antt =====
-- Who may touch an order, and what a use case that refuses does.
-- Code: apps/api/src/modules/orders/application/use-cases
use elonew.Base.{ℕ, String, some, ◌≡◌, ◌≢◌, arith, eq_iff, lookup}
use elonew.Common.Errors.{Result, ok, err, order_not_found}
use elonew.Orders.Entity.{OrderCredentials}
use elonew.Orders.Repository.{OrderRow, IsReadable, map_order_from_record}
use elonew.Orders.UseCases.{
  accept_order, reject_order, complete_order, cancel_order, mark_order_as_paid,
  save_order_credentials, clear_order_credentials,
}
use elonew.Platform.World.{World}

-- An order that can be read and belongs to another booster, whose id is not empty, does not exist
-- for this one: accepting, rejecting and completing it all answer "not found", and change nothing.
pub foreign_booster :
    (id booster other : String) (w : World) {r : OrderRow} (deadline now period : ℕ) (tx : String)
    → lookup id w.orders ≡ some r
    → r.booster_id ≡ some other
    → other ≢ ""
    → other ≢ booster
    → IsReadable r
    → (accept_order id booster deadline w ≡ (err order_not_found, w))
      × (reject_order id booster w ≡ (err order_not_found, w))
      × (complete_order tx period id booster now w ≡ (err order_not_found, w))
unfolding accept_order reject_order complete_order map_order_from_record
foreign_booster id booster other w deadline now period tx found owner filled differs readable =
    ground (arith, eq_iff other "", eq_iff other booster)

-- An order that belongs to another client does not exist for this one: cancelling it and giving it
-- credentials both answer "not found", and change nothing.
pub foreign_client :
    (id client other : String) (w : World) {r : OrderRow} (c : OrderCredentials) (again : String)
    → lookup id w.orders ≡ some r
    → r.client_id ≡ some other
    → other ≢ client
    → (cancel_order id client w ≡ (err order_not_found, w))
      × (save_order_credentials id client c again w ≡ (err order_not_found, w))
unfolding cancel_order save_order_credentials
foreign_client id client other w c again found owner differs = ground (arith, eq_iff other client)

-- The outcome of a call on `w`: where it throws, it has changed nothing.
abbrev pub Atomic : {A : Type 0} → Result A × World → World → Type 0
Atomic (ok _, w') w = Unit
Atomic (err _, w') w = w' ≡ w

-- Where accepting, rejecting, cancelling, paying, or storing or clearing credentials throws, no
-- table has changed and nothing was sent.
pub use_cases-Atomic :
    (id user : String) (deadline : ℕ) (c : OrderCredentials) (again : String) (w : World)
    → Atomic (accept_order id user deadline w) w
      × Atomic (reject_order id user w) w
      × Atomic (cancel_order id user w) w
      × Atomic (mark_order_as_paid id w) w
      × Atomic (save_order_credentials id user c again w) w
      × Atomic (clear_order_credentials id w) w
unfolding accept_order reject_order cancel_order mark_order_as_paid save_order_credentials
    clear_order_credentials
use_cases-Atomic id user deadline c again w =
    (ground arith, ground arith, ground arith, ground arith, ground arith, ground arith)
