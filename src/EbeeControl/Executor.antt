-- ===== src/EbeeControl/Executor.antt =====
-- `ExecuteResponse` (modules/ebeecontrol/executor.go).
mod Defs
pub mod Rounds
pub mod Retry
pub mod Attempts
pub mod Response
unfoldable pub use Defs.*
