-- ===== src/Comments.antt =====
-- comments/comments.service.ts: creation, editing, the mention feed and the cascades.
pub mod Base
pub mod Edit
pub mod Feed
pub mod Cascade
