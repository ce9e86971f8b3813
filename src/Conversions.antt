-- ===== src/Conversions.antt =====
-- The second half of apps/api/src/modules/conversions: what an archived postback meant, the points it
-- earns, and the review of what is held.
pub mod Types
pub mod Decisions
pub mod Pipeline
pub mod Persist
pub mod Process
pub mod Commit
pub mod Linked
pub mod Settled
pub mod Once
pub mod Review
pub mod Rules
pub mod Confirmed
pub mod Stuck
mod Tests
