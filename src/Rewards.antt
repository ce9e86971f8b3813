-- ===== src/Rewards.antt =====
-- apps/api/src/modules/rewards: the owner of the balances and of their append-only history.
pub mod Types
pub mod Status
pub mod Store
pub mod Operations
pub mod Machine
pub mod Refines
pub mod Reconcile
pub mod History
pub mod Once
pub mod Reversal
pub mod Race
pub mod Overdraw
pub mod Amounts
pub mod Sound
pub mod Locking
pub mod Reads
pub mod Sweep
pub mod Maturation
pub mod Matured
pub mod Reconciliation
pub mod Ascending
pub mod Visited
mod Tests
mod PageTests
