-- ===== src/Migrations/Sql.antt =====
-- The part of PostgreSQL's data definition language that src/migrations uses. A schema lists its
-- enum types, tables and indexes with the newest in front; a statement that the server refuses
-- gives no schema. Rows play no part. Every primary key is a single column, and a foreign key
-- refers to one. The sequences and array types that the server names itself are left out.
mod Data
mod Checks
mod Server
unfoldable pub use Data.*
unfoldable pub use Checks.*
unfoldable pub use Server.*
