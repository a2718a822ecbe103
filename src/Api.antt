-- ===== src/Api.antt =====
-- The HTTP interface: the controllers, the guards in front of them and the filter behind them.
pub mod Responses
pub mod Controllers
pub mod Endpoints
pub mod Pipeline
pub mod Errors
pub mod Etag
pub mod Access
pub mod Versions
pub mod Session
pub mod Logout
