-- ===== src/Orders.antt =====
-- The orders module (apps/api/src/modules/orders).
pub mod Status
pub mod Entity
pub mod Lifecycle
pub mod Trail
pub mod Repository
pub mod Ports
pub mod UseCases
pub mod Guards
pub mod Outcomes
pub mod PricingVersion
pub mod Pricing
pub mod Eligibility
pub mod Catalog
pub mod Quoting
pub mod Coupon
pub mod Coupons
pub mod Quoted
pub mod Discounts
pub mod Quote
pub mod Checkout
pub mod Redeemed
mod Tests
mod CheckoutTests
