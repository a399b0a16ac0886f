-- ===== src/Gateway.antt =====
-- handlers.rs and util.rs of crates/theone-balance/src: the proxy that tries one key after another.
pub mod Auth
pub mod Retry
pub mod Target
pub mod Native
pub mod Failover
pub mod Forward
pub mod Worker
mod Tests
