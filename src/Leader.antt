-- ===== src/Leader.antt =====
-- crates/leader: the next slot group that a Jito validator leads, and the health of what tells it.
pub mod Types
pub mod Schedule
pub mod Clock
pub mod Window
pub mod Ahead
pub mod Healthy
pub mod Ticks
pub mod Waiting
pub mod Source
pub mod Listed
