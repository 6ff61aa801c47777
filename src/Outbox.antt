-- ===== src/Outbox.antt =====
-- The outbox (apps/api/src/common/outbox).
pub mod Store
pub mod Dispatcher
pub mod Batch
pub mod Work
pub mod Deliveries
pub mod Fetched
pub mod Settling
mod Tests
