-- ===== src/Revision.antt =====
-- internal/revision: the chain of a group's revisions, the engine that reconciles one, its builder.
pub mod Chain
pub mod Engine
pub mod Builder
