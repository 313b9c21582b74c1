-- ===== src/Counts.antt =====
-- The counters that a row keeps over other rows, and that every write keeps them true.
pub mod Keys
pub mod Scheme
pub mod Schemes
pub mod Neutral
pub mod Issues
pub mod Blockers
pub mod Elsewhere
pub mod Operations
pub mod Attachments
pub mod AttachmentCount
pub mod Gone
pub mod Ladder
pub mod AttachmentOps
pub mod Comments
pub mod Sweep
pub mod SweepOps
pub mod DoneHandler
