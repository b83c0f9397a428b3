-- ===== src/Cassandra.antt =====
-- The Cassandra implementation of MembershipDB, db/cassandra.go.
pub mod Session
pub mod Cast
pub mod Access
pub mod Edit
pub mod Move
pub mod Laws
pub mod Writes
pub mod Queries
pub mod Enumerate
pub mod Tests
