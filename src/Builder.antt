-- ===== src/Builder.antt =====
-- src/lib/backtest/builder-state.ts: the state of the portfolio backtest builder and its reducer.
pub mod State
pub mod Legs
pub mod Reduce
pub mod Distinct
pub mod Laws
pub mod Invariant
mod Tests
