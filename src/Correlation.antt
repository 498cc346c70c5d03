-- ===== src/Correlation.antt =====
-- The correlation engine of correlation/: scoring, deduplication, the narrative and the engine that
-- turns a window of events into incidents.
pub mod Scoring
pub mod Dedup
pub mod Narrative
pub mod Engine
