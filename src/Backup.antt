-- ===== src/Backup.antt =====
-- The backup tool of backup/backup.go: five files, one for each list of the database.
pub mod Run
pub mod Copy
pub mod Stops
pub mod Listings
pub mod Closing
mod Tests
