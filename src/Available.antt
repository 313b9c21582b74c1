-- ===== src/Available.antt =====
-- What the operations achieve where the table meets no conflict and no failure.
pub mod Rules
pub mod Blocking
pub mod Satisfying
