-- ===== src/Payments.antt =====
-- The payments module (apps/api/src/modules/payments).
pub mod Status
pub mod Entity
pub mod Lifecycle
pub mod Gateway
pub mod Ports
pub mod UseCases
pub mod Webhook
pub mod Reconcile
pub mod Notified
pub mod Swept
mod Tests
