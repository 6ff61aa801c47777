-- ===== src/Ratings.antt =====
-- The ratings of completed orders (apps/api/src/modules/ratings).
pub mod Submit
pub mod Reputation
mod Tests
