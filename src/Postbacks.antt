-- ===== src/Postbacks.antt =====
-- The first half of apps/api/src/modules/conversions: the archive of what the providers deliver.
pub mod Types
pub mod Replay
pub mod Capture
pub mod Query
pub mod Roundtrip
pub mod Lifecycle
pub mod Intake
pub mod Delivery
pub mod Acknowledged
pub mod Repeated
mod Tests
