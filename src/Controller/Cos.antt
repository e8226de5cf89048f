-- ===== src/Controller/Cos.antt =====
-- internal/controller/cos/controller.go: the controller of revisions.
pub mod Env
pub mod Watch
pub mod Prepare
pub mod Protocol
pub mod Handler
