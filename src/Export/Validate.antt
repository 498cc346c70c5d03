-- ===== src/Export/Validate.antt =====
-- The schema check of shared/titanops-export/validate_events.go.
mod Defs
pub mod Schema
unfoldable pub use Defs.*
