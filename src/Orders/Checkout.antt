-- ===== src/Orders/Checkout.antt =====
-- apps/api/src/modules/orders/infrastructure/repositories/prisma-order-checkout.repository.ts and
-- apps/api/src/modules/payments/application/use-cases/start-checkout: a quote becomes an order with its
-- payment, in one transaction. The new ids are arguments.
use elonew.Base.{
  ℕ, String, Bool, true, false, ◌&&◌, not, List, [], ◌∷◌, Option, none, some, any, same, holds_text,
  is_some, ltb, leb, if◌then◌else◌, lookup, insert,
}
use elonew.Base.Int.{ℤ}
use elonew.Common.Errors.{
  ok, order_quote_not_found, order_quote_already_used, order_quote_expired, order_coupon_invalid,
  not_first_order, payment_order_not_found,
}
use elonew.Common.Action.{
  Action, ◌>>=◌, ◌>>◌, pure, gets, modify, attempt, or_throw, throw_if, transaction,
}
use elonew.Money.Amount.{from_cents}
use elonew.Orders.Status.{
  OrderStatus, awaiting_payment, pending_booster, in_progress, completed, is_status,
}
use elonew.Orders.Quote.{OrderQuote}
use elonew.Orders.Repository.{OrderRow, map_service_type_to_persistence}
use elonew.Payments.Entity.{Payment, PaymentMethod, create, attach_gateway_details}
use elonew.Payments.Gateway.{PaymentGateway}
use elonew.Platform.World.{World}

-- The statuses that a client's earlier order makes its first.
abbrev placed_statuses : List OrderStatus
placed_statuses = awaiting_payment ∷ pending_booster ∷ in_progress ∷ completed ∷ []

unfoldable pub has_placed_order : String → World → Bool
has_placed_order client w =
    any
      (λ (e : String × OrderRow).
        holds_text e.1.client_id client && any (is_status e.1.status) placed_statuses)
      w.orders

-- `validateCouponForCheckout`; the lock on the client's row is no more than an order of transactions here.
unfoldable pub validate_coupon_for_checkout : String → Option String → Action World (Unit {0})
unfolding has_placed_order
validate_coupon_for_checkout client none = pure tt
validate_coupon_for_checkout client (some coupon) = do
  only_first ← gets (λ w. not (same coupon "") && any (same coupon) w.first_order_only)
  placed ← gets (has_placed_order client)
  throw_if (only_first && placed) (order_coupon_invalid not_first_order)

abbrev pub draft_row : String → String → Option String → OrderQuote → OrderRow
draft_row order client booster q = record {
  id = order;
  client_id = some client;
  booster_id = booster;
  coupon_id = q.coupon_id;
  pricing_version_id = some q.pricing_version_id;
  status = awaiting_payment;
  details = record {
    service_type = some (map_service_type_to_persistence q.service_type);
    summoner_name = q.summoner_name;
    current_league = some q.current_league;
    current_division = some q.current_division;
    current_lp = some q.current_lp;
    desired_league = some q.desired_league;
    desired_division = some q.desired_division;
    server = some q.server;
    desired_queue = some q.desired_queue;
    lp_gain = some q.lp_gain;
    deadline = none;
  };
  subtotal = some q.subtotal;
  total_amount = some q.total_amount;
  discount_amount = q.discount_amount;
  completed_at = none;
  extras = q.extras;
  credentials = none;
}

abbrev pub owned_quote : String → Option OrderQuote → Option OrderQuote
owned_quote client none = none
owned_quote client (some q) = if same q.client_id client then some q else none

-- The rows that the conditional update changes: the quote, or none.
abbrev unused : ℕ → Option OrderQuote → Option OrderQuote
unused now none = none
unused now (some q) = if not (is_some q.consumed_at) && ltb now q.expires_at then some q else none

unfoldable pub consume_quote : String → String → String → ℕ → Action World Bool
consume_quote order client quote now w =
    elim (unused now (owned_quote client (lookup quote w.quotes))) [
      | none ↦ (ok false, w)
      | some q ↦ (
        ok true,
        record w {
          quotes =
              insert quote (record q { consumed_at = some now; order_id = some order }) w.quotes;
        },
      )
    ]

abbrev create_payment_row : Option Payment → World → World
create_payment_row none w = w
create_payment_row (some p) w = record w { payments = insert p.id p w.payments }

-- The callback of the transaction; the row of the new order is its answer.
unfoldable pub redeem_quote :
    String → String → Option String → String → ℕ → Option Payment → Action World OrderRow
unfolding validate_coupon_for_checkout consume_quote
redeem_quote order client booster quote now payment = do
  found ← gets (λ w. owned_quote client (lookup quote w.quotes))
  q ← or_throw found order_quote_not_found
  throw_if (is_some q.consumed_at) order_quote_already_used
  throw_if (leb q.expires_at now) order_quote_expired
  validate_coupon_for_checkout client q.coupon_id
  modify (λ w. record w { orders = insert order (draft_row order client booster q) w.orders })
  consumed ← consume_quote order client quote now
  throw_if (not consumed) order_quote_already_used
  modify (create_payment_row payment)
  pure (draft_row order client booster q)

-- `createDraftOrderFromOwnedQuote`
unfoldable pub create_draft_order_from_owned_quote :
    String → String → Option String → String → ℕ → Option Payment → Action World OrderRow
create_draft_order_from_owned_quote order client booster quote now payment =
    transaction (redeem_quote order client booster quote now payment)

abbrev amount_of_quote : Option OrderQuote → Option ℤ
amount_of_quote none = none
amount_of_quote (some q) = some q.total_amount

unfoldable pub find_owned_quote_total_amount : String → String → Action World (Option ℤ)
find_owned_quote_total_amount quote client =
    gets (λ w. amount_of_quote (owned_quote client (lookup quote w.quotes)))

module _ (gateway : PaymentGateway) where
  -- start-checkout.use-case.ts
  unfoldable pub start_checkout :
      String → String → String → String → PaymentMethod → ℕ → Action World (OrderRow × Payment)
  unfolding find_owned_quote_total_amount create_draft_order_from_owned_quote
  start_checkout order payment_id client quote method now = do
    amount ← find_owned_quote_total_amount quote client
    gross ← or_throw amount payment_order_not_found
    payment ← attempt (create payment_id order gross method)
    cents ← attempt (from_cents gross)
    started ← attempt (
        gateway.initiate_payment (record {
          payment_id = payment.id;
          order_id = order;
          amount = cents.cents;
          payment_method = method;
        }))
    let attached =
        attach_gateway_details
          (record {
            gateway_reference_id = some (some started.gateway_reference_id);
            gateway_id = none;
            gateway_status = started.gateway_status;
            gateway_status_detail = some none;
            gateway_payment_method_id = none;
            gateway_payment_type_id = none;
            checkout_url = some (some started.checkout_url);
          })
          payment
    row ← create_draft_order_from_owned_quote order client none quote now (some attached)
    pure (row, attached)
