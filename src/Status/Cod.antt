-- ===== src/Status/Cod.antt =====
-- internal/status/cod: the status of a deployment.
pub mod Availability
pub mod Progress
