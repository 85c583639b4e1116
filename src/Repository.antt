-- ===== src/Repository.antt =====
-- src/lib/backend/portfolio-repository.ts: the stored portfolios, and the operations that create, change
-- and delete a transaction.
pub mod State
pub mod Rebuild
pub mod Operations
pub mod Mirror
pub mod Steps
pub mod Keys
pub mod Laws
pub mod RoundTrip
pub mod Tenancy
pub mod Signals
pub mod Bars
pub mod Load
pub mod Quantities
mod Tests
