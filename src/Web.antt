-- ===== src/Web.antt =====
-- The HTTP handlers of membersys/ (applicantlist.go, memberqueue.go, trash.go, memberlist.go,
-- formvalidator.go, takeout.go, barcode.go), with what they share: the facts of a request, the parts of a response, and actions that write parts
-- of a response, call the database and may return early.
pub mod Handler
pub mod Numbers
pub mod Applicants
pub mod Queues
pub mod Members
pub mod Fields
pub mod Form
pub mod Guards
pub mod Edits
pub mod Reports
pub mod Saved
pub mod Private
pub mod Single
pub mod Takeout
pub mod Barcode
pub mod Own
pub mod Scanned
pub mod Lookup
mod PaperTests
mod Tests
