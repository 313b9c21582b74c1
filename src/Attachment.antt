-- ===== src/Attachment.antt =====
-- mixins/attachment.py: class AttachmentMixin.
mod Requests
mod Signing
mod Upload
mod Delete
unfoldable pub use Requests.*
unfoldable pub use Signing.*
unfoldable pub use Upload.*
unfoldable pub use Delete.*
pub mod Ladder
pub mod StorageSteps
pub mod Steps
pub mod DeleteSteps
pub mod Made
