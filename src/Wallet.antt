-- ===== src/Wallet.antt =====
-- The wallet module (apps/api/src/modules/wallet).
pub mod Entity
pub mod Ledger
pub mod Balance
pub mod Release
pub mod UseCases
pub mod Books
pub mod Earnings
pub mod Tests
