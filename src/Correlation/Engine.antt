-- ===== src/Correlation/Engine.antt =====
-- The engine of correlation/engine.go. Every method runs under the lock, so it is one step.
mod Types
mod Config
mod Ingest
mod Grouping
mod Correlate
mod Query
pub mod Setup
pub mod Groups
pub mod Window
pub mod Incidents
pub mod Actions
pub mod Acting
pub mod Filter
unfoldable pub use Types.*
unfoldable pub use Config.*
unfoldable pub use Ingest.*
unfoldable pub use Grouping.*
unfoldable pub use Correlate.*
unfoldable pub use Query.*
