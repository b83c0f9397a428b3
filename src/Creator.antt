-- ===== src/Creator.antt =====
-- The tool member_creator/member_creator.go, which works off the queues: it makes an account in LDAP
-- for each new member and takes those of the leaving ones away.
pub mod Directory
pub mod Account
pub mod Numbers
pub mod Run
pub mod Rules
pub mod Uids
pub mod Above
pub mod Backing
pub mod Loops
pub mod DryRun
pub mod Deletion
pub mod Removal
mod Tests
