-- ===== src/Platform.antt =====
-- The tables, queues and messages that the use cases of the modules share.
pub mod World
pub mod Samples
