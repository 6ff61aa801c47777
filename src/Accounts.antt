-- ===== src/Accounts.antt =====
-- Users and their sessions (apps/api/src/modules/users and auth), and the administration of users
-- (apps/api/src/modules/admin).
pub mod User
pub mod Store
pub mod Columns
pub mod AccessToken
pub mod UseCases
pub mod Guards
pub mod Governance
pub mod Interventions
pub mod Payout
pub mod Sessions
pub mod Rotation
pub mod Onboarding
pub mod Access
mod Tests
