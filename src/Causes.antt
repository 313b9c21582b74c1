-- ===== src/Causes.antt =====
-- What an exception of the manager says about the table.
pub mod Rules
pub mod Entries
pub mod Updates
pub mod Transition
pub mod Counted
pub mod Blockers
