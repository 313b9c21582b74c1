-- ===== src/Manager.antt =====
-- manager.py: class BasePL8, the part that every mixin builds on.
pub mod RetryLaws
pub mod UpdateLaws
pub mod Parse
pub mod ParseLaws
pub mod Failure
pub mod Update
pub mod Retry
pub mod Keeps
pub mod Query
pub mod Paginate
pub mod PaginateLaws
pub mod PaginateRows
pub mod Reads
pub mod Validated
pub mod QuerySteps
