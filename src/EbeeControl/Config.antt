-- ===== src/EbeeControl/Config.antt =====
-- The configuration of the deception module (modules/ebeecontrol/config.go).
mod Types
mod Defs
pub mod Schema
pub use Types.*
unfoldable pub use Defs.*
