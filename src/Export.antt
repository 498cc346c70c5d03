-- ===== src/Export.antt =====
-- The export library, shared/titanops-export: the event, the retry buffer of a backend, and the
-- dispatch of an event to several backends at once.
pub mod Event
pub mod Buffer
pub mod Multi
pub mod Validate
