-- ===== src/Orders/Redeemed.antt =====
-- Turning a quote into an order.
-- Code: apps/api/src/modules/orders/infrastructure/repositories/prisma-order-checkout.repository.ts,
-- apps/api/src/modules/payments/application/use-cases/start-checkout
use elonew.Base.{ℕ, String, Option, none, some, ◌≡◌, arith, eq_iff, lookup, lookup-insert_self}
use elonew.Common.Errors.{ok, err, order_quote_already_used}
use elonew.Orders.Checkout.{
  redeem_quote, create_draft_order_from_owned_quote, start_checkout, draft_row,
}
use elonew.Orders.Guards.{Atomic}
use elonew.Orders.Quote.{OrderQuote}
use elonew.Orders.Repository.{OrderRow}
use elonew.Payments.Entity.{Payment, PaymentMethod, create, booster_share, attach_gateway_details}
use elonew.Payments.Gateway.{PaymentGateway}
use elonew.Payments.Status.{awaiting_confirmation}
use elonew.Platform.World.{World}

-- Where turning a quote into an order throws, directly or in a checkout, nothing was written.
pub checkout-Atomic :
    (g : PaymentGateway) (order payment client quote : String) (booster : Option String)
    (method : PaymentMethod) (now : ℕ) (paid : Option Payment) (w : World)
    → Atomic (create_draft_order_from_owned_quote order client booster quote now paid w) w
      × Atomic (start_checkout g order payment client quote method now w) w
unfolding create_draft_order_from_owned_quote start_checkout
checkout-Atomic g order payment client quote booster method now paid w =
    (ground arith, ground arith)

-- A quote is used once: after it has become an order, its client cannot use it again, for any order,
-- booster, time and payment; the attempt answers "already used" and changes nothing.
pub quote_used_once :
    (order order' client quote : String) (booster booster' : Option String) (now now' : ℕ)
    (paid paid' : Option Payment) (w : World) {row : OrderRow}
    → (create_draft_order_from_owned_quote order client booster quote now paid w).0 ≡ ok row
    → create_draft_order_from_owned_quote order' client booster' quote now' paid'
        (create_draft_order_from_owned_quote order client booster quote now paid w).1
      ≡ (
        err order_quote_already_used,
        (create_draft_order_from_owned_quote order client booster quote now paid w).1,
      )
unfolding create_draft_order_from_owned_quote redeem_quote
quote_used_once order order' client quote booster booster' now now' paid paid' w done =
    grind (arith, lookup-insert_self)

-- A checkout that succeeds, of a quote that stands in the table, leaves the order of the quote, which
-- awaits its payment, and a payment for that order over its whole amount, with the booster's share of
-- it, which awaits its confirmation; the quote was the client's and had not been used.
pub start_checkout-writes :
    (g : PaymentGateway) (order payment client quote : String) (method : PaymentMethod) (now : ℕ)
    (w : World) {q : OrderQuote} {out : OrderRow × Payment}
    → lookup quote w.quotes ≡ some q
    → (start_checkout g order payment client quote method now w).0 ≡ ok out
    → (lookup order (start_checkout g order payment client quote method now w).1.orders
        ≡ some out.0)
      × (lookup payment (start_checkout g order payment client quote method now w).1.payments
          ≡ some out.1)
      × (out.0 ≡ draft_row order client none q)
      × (out.1.id ≡ payment)
      × (out.1.order_id ≡ order)
      × (some out.1.gross_amount ≡ out.0.total_amount)
      × (booster_share q.total_amount ≡ ok out.1.booster_amount)
      × (out.1.status ≡ awaiting_confirmation)
      × (q.client_id ≡ client)
      × (q.consumed_at ≡ none)
unfolding start_checkout create_draft_order_from_owned_quote redeem_quote create
    attach_gateway_details
start_checkout-writes g order payment client quote method now w {q} {out} found done =
    grind (arith, lookup-insert_self, eq_iff q.client_id client)
