-- ===== src/EbeeControl/Trainer.antt =====
-- The trainer (modules/ebeecontrol/trainer.go).
mod Outcome
mod Defs
pub mod Guard
unfoldable pub use Outcome.*
unfoldable pub use Defs.*
