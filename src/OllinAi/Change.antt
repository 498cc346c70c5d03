-- ===== src/OllinAi/Change.antt =====
-- The changes of a workload (modules/ollinai/change.go).
mod Defs
mod Decimal
pub mod Window
unfoldable pub use Decimal.*
unfoldable pub use Defs.*
