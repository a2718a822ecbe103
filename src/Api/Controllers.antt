-- ===== src/Api/Controllers.antt =====
-- The controllers, one module for each.
pub mod Tickets
pub mod Projects
pub mod Users
pub mod Comments
pub mod Hanging
