-- ===== src/Tickets.antt =====
-- tickets/tickets.service.ts: the queries, creation, update, deletion and the cascades.
pub mod Ids
pub mod Base
pub mod Cascade
pub mod Create
pub mod Update
pub mod Remove
