-- ===== src/Examples.antt =====
-- Tests of the definitions and instances of the theorems on concrete inputs.
pub mod Rejections
pub mod Tracking
pub mod Retrying
pub mod Leading
pub mod Submitting
pub mod Keys
pub mod Wire
pub mod Bundles
pub mod Pipelining
pub mod Polling
pub mod Streaming
pub mod Redacting
pub mod Draining
pub mod Tipping
pub mod Prefetching
pub mod Rehearsing
