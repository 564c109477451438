-- ===== src/Submitter.antt =====
-- crates/submitter/src/lib.rs: the building, signing and sending of bundles.
pub mod Types
pub mod Limiter
pub mod Pace
pub mod Paced
pub mod Status
pub mod TipAccounts
pub mod Served
pub mod Sdk
pub mod Build
pub mod Decode
pub mod Tipped
pub mod Submit
pub mod Preparation
pub mod Submitted
pub mod Gateway
pub mod Answered
pub mod Simulate
pub mod Rehearsed
pub mod DryRun
pub mod Blockhash
