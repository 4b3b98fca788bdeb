-- ===== src/Oracle/Lifecycle.antt =====
-- oracle/src/services/scheduler: the three ticks that drive a swap's life on the ledger.
pub mod Rows
pub mod Trigger
pub mod Mature
pub mod Holdings
pub mod SettleNet
mod Tests
