-- ===== src/OllinAi/Emitter.antt =====
-- The emitter of the OllinAI module (modules/ollinai/emitter.go).
mod Defs
pub mod Account
unfoldable pub use Defs.*
