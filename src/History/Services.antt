-- ===== src/History/Services.antt =====
-- Each service, with what its actions keep.
pub mod Reading
pub mod Attachments
pub mod Dependencies
pub mod Accounts
pub mod Comments
pub mod Tickets
pub mod Removal
pub mod Projects
pub mod Escalation
