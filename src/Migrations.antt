-- ===== src/Migrations.antt =====
-- src/migrations: the schema of the database, the migrations that build it, and the entities that
-- are read from it.
pub mod Sql
pub mod Lists
pub mod Sound
pub mod Added
pub mod Dropped
pub mod Reverting
pub mod Keeping
pub mod Steps
pub mod RoundTrip
pub mod Labels
pub mod Mapped
pub mod Mapping
