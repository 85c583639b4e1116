-- ===== src/Runs.antt =====
-- src/lib/backend/quant-runs.ts: the runs of portfolio backtests.
pub mod State
pub mod Legs
pub mod Rows
pub mod Covering
pub mod Fitting
pub mod Eligible
pub mod Answer
pub mod Create
pub mod Reuse
pub mod Cancel
pub mod Stopped
mod Tests
