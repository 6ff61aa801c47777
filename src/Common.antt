-- ===== src/Common.antt =====
-- What the API's modules share: the domain errors and fallible steps over a state.
pub mod Errors
pub mod Action
