-- ===== src/Oracle/Marks.antt =====
-- oracle/src/services/mark-publisher: marks, margin calls and the ticks that publish them.
pub mod Formula
pub mod Netting
pub mod Csa
pub mod Publisher
pub mod Coalesce
mod Tests
