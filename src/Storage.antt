-- ===== src/Storage.antt =====
-- d1_storage.rs of crates/theone-balance/src, with dbmodels.rs, state/strategy.rs and the executor of
-- hybrid/: the pool of API keys in the D1 table, and the two caches before it.
pub mod Model
pub mod Platform
pub mod Health
pub mod Metrics
pub mod Cooldowns
pub mod Reads
pub mod Admin
pub mod Cleanup
pub mod Ensures
pub mod Invariant
pub mod Pool
pub mod Memory
pub mod Samples
mod Tests
