-- ===== src/Orchestrator.antt =====
-- crates/orchestrator: the tip policy, the plan of a decision, and the agent's retry loop.
pub mod Policy
pub mod Plan
pub mod Hold
pub mod Stalls
pub mod Retry
pub mod Plans
pub mod Attempts
pub mod Spending
pub mod Decisions
pub mod Tips
pub mod Outage
pub mod Poll
pub mod Budget
pub mod Verdicts
pub mod Payload
pub mod Pipeline
pub mod Sent
pub mod Handled
pub mod Submission
pub mod Prefetch
pub mod Warm
pub mod Capped
pub mod Drain
pub mod Drains
