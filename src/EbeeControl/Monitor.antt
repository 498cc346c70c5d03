-- ===== src/EbeeControl/Monitor.antt =====
-- The monitor of honeytoken accesses (modules/ebeecontrol/tetragon.go).
pub mod Buffer
mod Cells
pub mod Recent
mod Defs
pub mod Delivery
unfoldable pub use Defs.*
