-- ===== src/Tests.antt =====
-- Runs of the theorems at concrete inputs.
mod Data
mod Export
mod Correlation
mod Gateway
mod Kernel
mod EbeeControl
mod Deception
mod Agent
mod OllinAi
mod Config
