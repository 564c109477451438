-- ===== src/Agent.antt =====
-- crates/agent: the decision layer, from a classified failure to an ordered list of actions.
pub mod Types
pub mod Baseline
pub mod Guard
pub mod Reply
pub mod Log
pub mod Rules
pub mod Outcomes
