-- ===== src/Lifecycle.antt =====
-- crates/lifecycle: the commitment state machine of each bundle and its SQLite mirror.
pub mod Types
pub mod Index
pub mod Machine
pub mod Cases
pub mod Invariant
pub mod Events
pub mod Commitment
pub mod Store
pub mod Hydrate
pub mod Tracker
pub mod Mirror
pub mod Operations
pub mod Reconciled
pub mod Recovery
pub mod Progress
pub mod Timeouts
pub mod History
pub mod Anchored
pub mod Reordered
pub mod Sweeps
pub mod Submissions
pub mod Rehydration
pub mod Preserved
pub mod Swept
pub mod Reconcile
pub mod Mirrored
