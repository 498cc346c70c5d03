-- ===== src/Kernel.antt =====
-- The platform kernel (shared/titanops-platform/kernel.go): registration and lifecycle of modules, and
-- the subscriptions to events.
pub mod Types
pub mod Modules
pub mod Events
pub mod States
pub mod Lifecycle
pub mod Shutdown
pub mod Delivery
