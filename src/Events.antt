-- ===== src/Events.antt =====
-- apps/api/src/core/events: how one process tells the others that an entry of a cache changed.
pub mod Bus
pub mod Link
pub mod Sent
pub mod Delivered
mod Tests
