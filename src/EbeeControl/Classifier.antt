-- ===== src/EbeeControl/Classifier.antt =====
-- `ClassifyThreat` and `ClassifyThreatWithDefaults` (modules/ebeecontrol/classifier.go).
mod Defs
pub mod Monotone
unfoldable pub use Defs.*
