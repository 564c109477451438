-- ===== src/Failure.antt =====
-- crates/failure: the evidence-based failure classifier.
pub mod Types
pub mod Hex
pub mod Rejection
pub mod OnChain
pub mod NeverLanded
pub mod Classify
pub mod Causes
pub mod Priority
pub mod RoundTrip
