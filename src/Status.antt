-- ===== src/Status.antt =====
-- internal/status: the status of the two controllers' resources.
pub mod Cos
pub mod Cod
