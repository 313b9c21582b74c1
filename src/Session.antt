-- ===== src/Session.antt =====
-- The mixins together: every list of writes that an operation sends, and sessions of calls.
mod Requests
mod Calls
pub mod Steps
pub mod IssueCount
pub mod KeepsDone
pub mod Terminal
pub use Requests.*
pub use Calls.*
