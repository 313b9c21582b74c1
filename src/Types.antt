-- ===== src/Types.antt =====
-- types/: the entities, their key formats, and their way into rows and back.
mod Enums
mod Keys
mod Entities
mod Compression
pub mod Serialize
pub mod Dict
pub mod DictLaws
pub mod FromItem
pub mod RoundTrip
pub use Enums.*
pub use Keys.*
unfoldable pub use Entities.*
pub use Compression.*
