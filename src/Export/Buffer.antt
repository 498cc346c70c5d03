-- ===== src/Export/Buffer.antt =====
-- The per-backend retry buffer of shared/titanops-export/buffer.go: `RingBuffer` and
-- `ProcessBuffer`. A method takes the clock's reading where the source calls `time.Now`, and every
-- method runs under the mutex, so it is one step. Log lines are left out.
mod Defs
pub mod Process
pub mod Invariant
pub mod Order
pub mod Failure
pub mod History
pub mod Account
pub mod Backoff
pub mod Drain
pub mod Overtaken
pub mod Conserve
unfoldable pub use Defs.*
