-- ===== src/Providers.antt =====
-- apps/api/src/modules/providers: which addresses a network may deliver from.
pub mod Address
pub mod Range
pub mod Prefix
pub mod Parsed
pub mod Matched
pub mod Prefixes
pub mod Allowed
mod Tests
