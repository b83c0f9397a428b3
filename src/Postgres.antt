-- ===== src/Postgres.antt =====
-- The backend db/pgsql.go: what it uses of database/sql (Sql), a row (Row), and its methods.
pub mod Sql
pub mod Connect
pub mod Row
pub mod Columns
pub mod Edits
pub mod Moves
pub mod Reads
pub mod Reading
pub mod Register
pub mod Refinement
pub mod Lifecycle
pub mod Setters
pub mod Lists
pub mod Collect
mod Tests
