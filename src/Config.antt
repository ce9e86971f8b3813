-- ===== src/Config.antt =====
-- apps/api/src/core/config/configuration.service.ts: the typed settings, their cache in each process, and
-- the invalidations that keep the caches in step with the tables.
pub mod Types
pub mod Read
pub mod Write
pub mod Keys
pub mod Rows
pub mod Machine
pub mod Cached
pub mod Coherence
pub mod Resolved
pub mod Applied
pub mod Audit
mod Tests
