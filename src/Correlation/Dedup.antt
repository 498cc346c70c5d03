-- ===== src/Correlation/Dedup.antt =====
-- The deduplication cache of correlation/dedup.go.
mod Defs
pub mod Prune
pub mod Spacing
pub mod Coverage
pub mod Fingerprint
unfoldable pub use Defs.*
