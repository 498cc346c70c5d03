-- ===== src/Correlation/Scoring.antt =====
-- The confidence score of correlation/scoring.go.
mod Defs
pub mod Span
pub mod Risk
pub mod Bounds
unfoldable pub use Defs.*
