-- ===== src/Lifecycle.antt =====
-- The life of an Issue as a diagram, and the operations as its steps.
pub mod Diagram
pub mod Requests
mod Sent
pub mod Sessions
