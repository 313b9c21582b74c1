-- ===== src/Dynamo.antt =====
-- DynamoDB as the manager talks to it: attribute values and rows, the table, the requests that the
-- manager builds, and the client that answers them.
mod Rows
mod PrimaryKey
mod Tables
mod Request
mod Queries
mod Clients
pub mod Transaction
mod Calls
pub mod Documented
pub mod Available
pub mod Memory
pub use Rows.*
pub use PrimaryKey.*
unfoldable pub use Tables.*
pub use Request.*
pub use Queries.*
pub use Clients.*
unfoldable pub use Calls.*
