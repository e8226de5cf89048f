-- ===== src/Status/Cos.antt =====
-- internal/status/cos/status.go, by parts; the theorems stand in the modules below them.
pub mod Messages
pub mod Mapping
pub mod Incomplete
pub mod Phases
pub mod Completion
pub mod Update
