-- ===== src/Response.antt =====
-- src/lib/backend/portfolio.ts: the response about a portfolio, and its risk metrics.
pub mod State
pub mod Risk
pub mod Build
pub mod Allocation
mod Tests
