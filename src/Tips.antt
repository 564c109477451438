-- ===== src/Tips.antt =====
-- crates/tips: the rolling percentiles of the tips that landed.
pub mod Types
pub mod Tracker
pub mod History
pub mod Feed
pub mod Fed
