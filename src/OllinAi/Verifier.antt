-- ===== src/OllinAi/Verifier.antt =====
-- The verifier of deployments (modules/ollinai/verifier.go).
mod Checks
mod Defs
pub mod Readings
pub mod Verdicts
pub mod Schema
unfoldable pub use Checks.*
unfoldable pub use Defs.*
