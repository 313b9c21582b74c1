-- ===== src/Issue.antt =====
-- mixins/issue.py: class IssueMixin.
mod Writes
mod Crud
mod Blockers
mod Sweep
pub mod Steps
pub mod BlockerSteps
unfoldable pub use Writes.*
unfoldable pub use Crud.*
unfoldable pub use Blockers.*
unfoldable pub use Sweep.*
pub mod Blame
pub mod FailedIndex
