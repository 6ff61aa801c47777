-- ===== src/Orders/Quoting/Tests.antt =====
-- A quote without a coupon, and the theorems about quotes at concrete inputs.
-- Code: apps/api/src/modules/orders/application/use-cases/create-order-quote
use elonew.Base.{◌+◌, ◌<◌, none, some, [], ◌∷◌, true, ◌≡◌, ◌⊎◌, refl, arith, lookup, IsMap}
use elonew.Common.Errors.{ok}
use elonew.Orders.Checkout.{create_draft_order_from_owned_quote, validate_coupon_for_checkout}
use elonew.Orders.Coupon.{apply}
use elonew.Orders.CheckoutTests.{plain, version, wish, price, lookups, price_is}
use elonew.Orders.Quote.{OrderQuote}
use elonew.Orders.Quoting.{
  CreateOrderQuoteInput, price_with_coupon, create_order_quote, cleanup_expired_order_quotes,
  retention_ms, quote_row, delete_unused, first_ids, sort_by_expiry, expired_unused,
  insert_by_expiry,
}
use elonew.Orders.Quoting.Prices.{quote_is_honoured}
use elonew.Orders.Quoting.Cleanup.{cleanup_spares}
use elonew.Orders.Repository.{OrderRow}
use elonew.Platform.World.{World}

abbrev request : CreateOrderQuoteInput
request = record {
  client_id = "ann";
  summoner_name = "Ann";
  coupon_code = none;
  details = wish;
  server = "br";
  lp_gain = 20;
}

abbrev empty : World
empty = record {
  quotes = [];
  orders = [];
  rejections = [];
  payments = [];
  processed_events = [];
  wallets = [];
  coupon_codes = [];
  first_order_only = [];
  emails = [];
  effects = [];
}

priced : (price_with_coupon plain lookups (some version) request true).0 ≡ ok (none, price)
unfolding price_with_coupon apply
priced = rw (price_with_coupon, price_is) refl

quote_is_honoured_example :
    (row : OrderRow) × ((create_draft_order_from_owned_quote "o1" "ann" none "q1" 1801000 none
        (create_order_quote plain lookups (some version) "q1" 30 request 1500 empty).1).0
      ≡ ok row)
    × (row.subtotal ≡ some price.subtotal)
    × (row.total_amount ≡ some price.total_amount)
    × (row.discount_amount ≡ price.discount_amount)
    × (row.extras ≡ price.extras)
    × (row.coupon_id ≡ none)
unfolding validate_coupon_for_checkout
quote_is_honoured_example =
    quote_is_honoured plain lookups (some version) "q1" 30 request 1500 empty "o1" none 1801000 none
      priced (omega arith) refl

-- One quote that expired long ago, and one that did so lately.
abbrev expired : World
expired = record (empty) {
  quotes =
      ("q1", quote_row "q1" request none price 5)
      ∷ ("q2", quote_row "q2" request none price 600000000)
      ∷ [];
}

first_deleted :
    cleanup_expired_order_quotes 700000000 10 expired
    ≡ (1, record (expired) { quotes = ("q2", quote_row "q2" request none price 600000000) ∷ [] })
unfolding cleanup_expired_order_quotes delete_unused first_ids sort_by_expiry expired_unused
    insert_by_expiry
first_deleted = refl

cleanup_spares_example :
    (lookup "q1" (cleanup_expired_order_quotes 700000000 10 expired).1.quotes
      ≡ lookup "q1" expired.quotes)
    ⊎ ((q : OrderQuote) × (lookup "q1" expired.quotes ≡ some q)
        × (q.expires_at + retention_ms < 700000000)
        × (q.consumed_at ≡ none)
        × (q.order_id ≡ none)
        × (lookup "q1" (cleanup_expired_order_quotes 700000000 10 expired).1.quotes ≡ none))
unfolding IsMap lookup
cleanup_spares_example = cleanup_spares 700000000 10 "q1" expired (refl, (refl, tt))
