-- ===== src/History.antt =====
-- The application over time: every request and every tick of its timers as a step.
pub mod Tables
pub mod Ends
pub mod Later
pub mod Names
pub mod Writes
pub mod Respects
pub mod Services
pub mod Requests
pub mod Runs
pub mod Accounts
pub mod Revocation
pub mod Overdue
