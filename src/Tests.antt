-- ===== src/Tests.antt =====
-- Runs of the model on concrete inputs, each through a theorem of the library.
pub mod Fixtures
pub mod Cos
pub mod Revision
pub mod Cod
pub mod Objects
pub mod Handler
pub mod Refused
pub mod Lifetime
pub mod Admission
pub mod Rollout
pub mod Earned
