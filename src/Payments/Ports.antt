-- ===== src/Payments/Ports.antt =====
-- The payment ports as their adapters serve them.
-- Code: apps/api/src/modules/payments/infrastructure/repositories and .../infrastructure/adapters.
-- `findFirst` without an order answers the first row of the table here.
use mathlib.Core.Option
use Prim.Native.String.{◌++◌ as text_append}
use elonew.Base.{
  String, Bool, false, ◌&&◌, ◌∷◌, Option, none, some, any, find, same, holds_text, if◌then◌else◌,
  lookup, insert, Dict,
}
use elonew.Base.Int.{ℤ}
use elonew.Common.Errors.{ok}
use elonew.Common.Action.{Action, gets, modify}
use elonew.Orders.Status.{OrderStatus}
use elonew.Orders.Repository.{OrderRow}
use elonew.Payments.Entity.{Payment}
use elonew.Platform.World.{World, governance_recorded, emit}

-- `findById`, and the order of the payment's row.
unfoldable pub find_by_id : String → Action World (Option Payment)
find_by_id id w = (ok (lookup id w.payments), w)

unfoldable pub is_order_of_client : String → String → World → Bool
is_order_of_client order client w = elim (lookup order w.orders) [
  | none ↦ false
  | some r ↦ holds_text r.client_id client
]

abbrev pub payment_where : (Payment → Bool) → Dict Payment → Option Payment
payment_where p ps = Option.map (λ e. e.1) (find (λ (e : String × Payment). p e.1) ps)

abbrev of_client : Option Payment → String → World → Option Payment
of_client none client w = none
of_client (some p) client w = if is_order_of_client p.order_id client w then some p else none

unfoldable pub find_by_id_for_client : String → String → Action World (Option Payment)
unfolding is_order_of_client
find_by_id_for_client id client w = (ok (of_client (lookup id w.payments) client w), w)

unfoldable pub find_by_order_id : String → Action World (Option Payment)
find_by_order_id order = gets (λ w. payment_where (λ p. same p.order_id order) w.payments)

unfoldable pub find_by_order_id_for_client : String → String → Action World (Option Payment)
unfolding is_order_of_client
find_by_order_id_for_client order client = gets (λ w.
    payment_where (λ p. same p.order_id order && is_order_of_client p.order_id client w) w.payments)

abbrev pub upserted : Payment → Option Payment → Payment
upserted p none = p
upserted p (some old) = record p { order_id = old.order_id }

-- An update keeps the row's order.
unfoldable pub save : Payment → Action World (Unit {0})
save p =
    modify
      (λ w. record w { payments = insert p.id (upserted p (lookup p.id w.payments)) w.payments })

-- `OrderStatusPort`
unfoldable pub order_status : String → Action World (Option OrderStatus)
order_status order = gets (λ w. Option.map (λ (r : OrderRow). r.status) (lookup order w.orders))

abbrev of_owner : String → Option OrderRow → Option OrderRow
of_owner client none = none
of_owner client (some r) = if holds_text r.client_id client then some r else none

unfoldable pub order_status_for_client : String → String → Action World (Option OrderStatus)
order_status_for_client order client =
    gets (λ w. Option.map (λ (r : OrderRow). r.status) (of_owner client (lookup order w.orders)))

abbrev amount_of : Option OrderRow → Option ℤ
amount_of none = none
amount_of (some r) = r.total_amount

-- `OrderPaymentAmountPort`
unfoldable pub order_amount_for_client : String → String → Action World (Option ℤ)
order_amount_for_client order client =
    gets (λ w. amount_of (of_owner client (lookup order w.orders)))

-- `recordLateApprovedAfterExpiration`
unfoldable pub record_late_approved_after_expiration : String → String → Action World (Unit {0})
unfolding emit
record_late_approved_after_expiration payment order =
    modify (emit (governance_recorded payment order))

unfoldable pub build_processed_event_key : String → String
build_processed_event_key id = text_append "mercadopago:" id

unfoldable pub has_processed : String → Action World Bool
has_processed key = gets (λ w. any (same key) w.processed_events)

unfoldable pub mark_processed : String → Action World (Unit {0})
mark_processed key = modify (λ w.
    if any (same key) w.processed_events
    then w
    else record w { processed_events = key ∷ w.processed_events })
