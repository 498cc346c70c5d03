-- ===== src/OllinAi/Watcher.antt =====
-- The watcher of workloads (modules/ollinai/watcher.go).
mod Defs
pub mod Diff
unfoldable pub use Defs.*
