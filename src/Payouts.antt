-- ===== src/Payouts.antt =====
-- apps/api/src/modules/payouts: withdrawals, from the request to the last decision on it.
pub mod StateMachine
pub mod Destination
pub mod Provider
pub mod Service
pub mod Invariant
pub mod Submission
pub mod Rows
pub mod Transition
pub mod Machine
pub mod Progress
pub mod Acceptance
pub mod Settlement
mod Tests
