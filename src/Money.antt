-- ===== src/Money.antt =====
-- Money in whole cents (packages/shared/src/money) and the floating-point rates that it is
-- multiplied by.
pub mod Double
pub mod Rounding
pub mod Amount
pub mod Share
