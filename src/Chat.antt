-- ===== src/Chat.antt =====
-- The chat of an order (apps/api/src/modules/chat).
pub mod Thread
pub mod Paging
pub mod Notices
mod Tests
