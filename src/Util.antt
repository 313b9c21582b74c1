-- ===== src/Util.antt =====
-- util.py: the validators of caller-supplied values, and the generator of issue ids.
mod Validators
mod IssueId
mod Cursor
pub mod Charset
unfoldable pub use Validators.*
unfoldable pub use IssueId.*
unfoldable pub use Cursor.*
pub mod Drawn
pub mod CursorLaws
pub mod MediaType
