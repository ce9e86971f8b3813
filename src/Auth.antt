-- ===== src/Auth.antt =====
-- The sessions and the login throttle of apps/api/src/modules/auth: refresh tokens in families, of which each
-- use makes the next, and the counters of failed logins.
pub mod Types
pub mod Sessions
pub mod Rows
pub mod Linear
pub mod Rotation
pub mod Families
pub mod Reuse
pub mod Race
pub mod Throttle
pub mod Admission
pub mod Mortal
pub mod Attempts
mod Tests
mod ThrottleTests
