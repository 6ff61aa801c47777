-- ===== src/Inbox.antt =====
-- The notifications of the users (apps/api/src/modules/notifications), and what the web shows of them.
pub mod Store
pub mod UseCases
pub mod Rows
pub mod Badge
pub mod Reading
pub mod Live
pub mod Sorted
pub mod Followed
pub mod Ids
pub mod Fresh
pub mod ReadAll
mod Tests
