-- ===== src/Controller.antt =====
-- internal/controller: the two reconcilers, over a server that is known by its answers.
pub mod Server
pub mod Apply
pub mod Finalizer
pub mod Cod
pub mod Cos
