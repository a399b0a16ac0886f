-- ===== src/Storage/Invariant/Operations.antt =====
-- Each function of d1_storage.rs keeps the invariant.
mod Updates
mod Writes
mod Serving
mod Cleaning
pub use Updates.*
pub use Writes.*
pub use Serving.*
pub use Cleaning.*
