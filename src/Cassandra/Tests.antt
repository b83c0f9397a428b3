-- ===== src/Cassandra/Tests.antt =====
-- A small database that meets the laws of Cassandra/Laws, and the theorems about db/cassandra.go at
-- concrete inputs over it.
mod Codec
pub mod Store
pub mod Sample
pub mod Wide
mod Moves
mod Edits
mod Lists
