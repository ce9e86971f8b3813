-- ===== src/Clicks.antt =====
-- apps/api/src/modules/clicks: the click behind a `sub_id`, and the signature that a `sub_id` carries.
pub mod SubId
pub mod Attribution
mod Tests
