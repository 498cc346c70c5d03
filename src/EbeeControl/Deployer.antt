-- ===== src/EbeeControl/Deployer.antt =====
-- The deployers (modules/ebeecontrol/deployer.go).
pub mod Requests
mod Defs
pub mod InMemory
pub mod Restores
pub mod Rollback
unfoldable pub use Defs.*
