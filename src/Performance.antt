-- ===== src/Performance.antt =====
-- src/lib/backend/portfolio.ts: the daily performance of a portfolio and of its benchmark, over bars of
-- prices and the ledger. The label of a day, which `toLocaleDateString` makes, is a parameter.
pub mod State
pub mod Bars
pub mod Trading
pub mod Value
pub mod Report
pub mod Build
pub mod Follows
pub mod Laws
mod Tests
