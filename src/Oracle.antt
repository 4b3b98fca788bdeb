-- ===== src/Oracle.antt =====
-- The oracle service (oracle/src): the mark publisher and the lifecycle scheduler.
pub mod Marks
pub mod Lifecycle
pub mod Replay
