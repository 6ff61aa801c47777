-- ===== src/Lib.antt =====
-- The marketplace of ranked-game boosting: a client takes a quote, pays for an order, a booster
-- plays it and is paid. The API (apps/api) keeps the money and the states; this library models its
-- core.
--
-- The parts, and the files that model them:
-- * Money (packages/shared/src/money/money.ts) is whole cents. Money/Amount has its operations,
--   which throw outside the safe integers; Money/Double has the binary64 numbers behind `percentage`
--   and `fromDecimal` (non-negative ones, as a mantissa over a power of two, rounded to 53 bits),
--   and Money/Rounding and Money/Share bound their errors.
-- * Orders (apps/api/src/modules/orders). Orders/Entity is domain/order.entity.ts, one function for
--   each method, an error for each throw; Orders/Lifecycle and Orders/Trail are about sequences of
--   calls. Orders/Repository is the row that infrastructure/repositories/prisma-order.repository.ts
--   writes and reads, Orders/Ports the ports over the tables, Orders/UseCases the use cases
--   (application/use-cases); Orders/Guards and Orders/Outcomes say what these do.
--   Orders/PricingVersion and Orders/Pricing are
--   infrastructure/pricing/versioned-order-pricing.service.ts, Orders/Eligibility and Orders/Coupon
--   application/coupon-eligibility.ts and application/services/order-coupon.service.ts, with
--   Orders/Quoted and Orders/Discounts about them. Orders/Quote and Orders/Checkout are
--   infrastructure/repositories/prisma-order-checkout.repository.ts and the payments'
--   start-checkout, with Orders/Redeemed about them. Orders/Catalog is the administration of pricing
--   versions (infrastructure/repositories/prisma-order-pricing-version.repository.ts and its use
--   cases), with Orders/Catalog/Steps and Orders/Catalog/Versions about them. Orders/Quoting makes,
--   previews and clears away quotes (infrastructure/repositories/prisma-order-quote.repository.ts
--   and its use cases), with Orders/Quoting/Prices and Orders/Quoting/Cleanup about them.
--   Orders/Coupons is the administration of coupons
--   (infrastructure/repositories/prisma-coupon-admin.repository.ts and its use cases, and
--   packages/shared/src/coupons/coupon.ts), with Orders/Coupons/Codes and Orders/Coupons/Effects
--   about them.
-- * Payments (apps/api/src/modules/payments). Payments/Entity is domain/payment.entity.ts,
--   Payments/Ports the repositories and adapters, Payments/UseCases, Payments/Webhook and
--   Payments/Reconcile the use cases; Payments/Lifecycle, Payments/Notified and Payments/Swept are
--   about them.
-- * Wallets (apps/api/src/modules/wallet). Wallet/Entity is domain/wallet.entity.ts, Wallet/UseCases
--   the use cases; Wallet/Ledger, Wallet/Balance, Wallet/Release, Wallet/Books and Wallet/Earnings
--   are about them.
-- * Tickets (apps/api/src/modules/tickets). Tickets/Entity is domain/ticket.entity.ts, Tickets/Desk
--   the use cases and their repository, and Tickets/Talk is about them.
-- * Accounts (apps/api/src/modules/users, auth and admin, packages/auth). Accounts/User is
--   domain/user.entity.ts, Accounts/Store the tables, with Accounts/Columns about them,
--   Accounts/AccessToken the signed tokens, Accounts/UseCases the use cases of users and auth,
--   Accounts/Guards the guards of the requests, Accounts/Governance what an administrator does to a
--   user and Accounts/Interventions what an administrator does to an order. Accounts/Sessions,
--   Accounts/Rotation, Accounts/Onboarding, Accounts/Access and Accounts/Payout are about them.
-- * Throttling (apps/api/src/common/http). Throttling/Window is window-throttler.storage.ts,
--   Throttling/Guard the tracker and the guards; the other files of the folder are about them.
-- * Outbox (apps/api/src/common/outbox). Outbox/Store is the writer and the table, Outbox/Dispatcher
--   the registry and the dispatcher, as a service whose ticks interleave with the calls that are
--   awaited; the other files of the folder are about them.
-- * Ranks (apps/web/src/modules/client-dashboard/model/rank-options.ts): the ranks of the order
--   form, with Ranks/Steps and Ranks/Desired about them.
-- * Ratings (apps/api/src/modules/ratings). Ratings/Submit is the entity, the repository and the use
--   cases, and Ratings/Reputation is about them.
-- * Chat (apps/api/src/modules/chat). Chat/Thread is the repository and the use cases, and
--   Chat/Paging is about the pages, and Chat/Notices about the notifications that messages and
--   readings leave.
-- * Inbox (apps/api/src/modules/notifications). Inbox/Store is the repository, Inbox/UseCases the
--   use cases and the list, and Inbox/Live what a page of the web makes of the events
--   (apps/web/src/modules/notifications/presentation/notification-live-state.ts). Inbox/Rows,
--   Inbox/Badge and Inbox/Reading are about the rows and the counts, Inbox/Sorted, Inbox/Followed,
--   Inbox/Fresh, Inbox/ReadAll and Inbox/Ids about the order and the pages.
-- * Platform/World has the tables and the messages to the outside that the use cases share. Common
--   has the errors and the `Action` monad: a use case takes the tables and answers a result and the
--   new tables, and what was written before a throw stays written, except in a transaction.
--
-- How they interact: a checkout turns a quote into an order and a payment; the provider's webhook,
-- or the sweep of stale checkouts, confirms or fails the payment, and this pays the order or clears
-- its credentials; completing an order credits the booster's part of the payment to the wallet,
-- locked until its date, from which a scheduled or a forced release makes it withdrawable. A request
-- passes the throttler and the guards of Accounts before a use case runs. An event is written to the
-- outbox in the transaction of the rows it tells of, and the dispatcher delivers it later; a message
-- of the chat does this for its notification. A checkout is priced by the version that an
-- administrator has activated.
--
-- Bounds: amounts are integers in cents and every sum is checked as the code does it; a booster's
-- part is considered up to 2 ^ 49 cents. Times are milliseconds. All loops are structural recursion.
-- Only the floating-point model has fuel: the count of the bits of a product, whose 64 rounds are
-- enough below 2 ^ 117, and the scaling of a quotient, whose 1100 rounds reach the smallest normal
-- number. The reader of a chat has as fuel the number of its messages, which is enough for pages of
-- one.
--
-- Parameters: the payment provider and the verdict on a webhook's signature, the answers of the
-- coupon lookups, the text normalisation, `Number` and `toFixed` of the runtime, digests, encodings
-- and password hashes, whether a handler of the outbox throws, random ids and numbers, how the
-- database orders ids and which rows its cursors lead to, and the present time.
--
-- Not modelled: the other parts of the web application, controllers, logging, sockets and email
-- texts (transport and display), the encryption of credentials, the dashboards' queries, the
-- workers, the filter that turns errors into answers, the reports on coupons, a table that fails to
-- answer, and two requests at once (a call of a port is one step, and use cases run one after the
-- other; the sweep takes its candidates one by one, where the source takes three at a time). Rows
-- that a unique index refuses are modelled where the code handles them; two extras of one type on
-- one order are not.
pub mod Base
pub mod Common
pub mod Money
pub mod Orders
pub mod Payments
pub mod Wallet
pub mod Platform
pub mod Throttling
pub mod Outbox
pub mod Accounts
pub mod Ranks
pub mod Ratings
pub mod Inbox
pub mod Chat
pub mod Tickets
