-- ===== src/OllinAi/Poller.antt =====
-- The poller of deployment risks (modules/ollinai/poller.go and severity.go).
mod Defs
pub mod Bonus
unfoldable pub use Defs.*
