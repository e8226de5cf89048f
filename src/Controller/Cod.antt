-- ===== src/Controller/Cod.antt =====
-- internal/controller/cod/controller.go
pub mod Revision
pub mod Env
pub mod Handler
pub mod Reconcile
pub mod Protocol
