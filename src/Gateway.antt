-- ===== src/Gateway.antt =====
-- The dashboard's backend (gateway/): the in-memory stores, the operator overrides with their audit
-- trail, and the handler of POST /api/overrides. A Go `float64` is a parameter `F` with its zero; the
-- time is an argument of the operations that read the clock.
pub mod Types
pub mod Stores
pub mod Overrides
pub mod Trail
pub mod Pausing
pub mod Outcome
pub mod Recent
