-- ===== src/Tickets.antt =====
-- The tickets module (apps/api/src/modules/tickets).
pub mod Entity
pub mod Desk
pub mod Talk
mod Tests
