-- ===== src/OllinAi.antt =====
-- The module that verifies deployments (modules/ollinai): the changes of a workload, the checks of its
-- signals, the verdict on them, and the emitter's buffer.
pub mod Change
pub mod Verdict
pub mod Verifier
pub mod Emitter
pub mod Poller
pub mod Watcher
