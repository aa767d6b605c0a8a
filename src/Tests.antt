-- ===== src/Tests.antt =====
-- Concrete runs, at which the theorems apply: a platform, a ledger, and a Session with its evidence.
pub mod Fixtures
pub mod Ledger
pub mod Validation
pub mod Effects
pub mod Claims
pub mod Receipts
pub mod Decisions
pub mod Initialize
