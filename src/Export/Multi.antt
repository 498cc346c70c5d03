-- ===== src/Export/Multi.antt =====
-- The concurrent dispatch of shared/titanops-export/multi_exporter.go. The goroutines of `Export`
-- each write one slot of the results; the order in which they finish is a schedule.
mod Defs
pub mod Schedule
pub mod Status
unfoldable pub use Defs.*
