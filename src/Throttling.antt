-- ===== src/Throttling.antt =====
-- Request throttling (apps/api/src/common/http).
pub mod Window
pub mod Guard
pub mod Trackers
pub mod Keys
pub mod Isolation
pub mod Limit
pub mod Retry
mod Tests
