-- ===== src/Lib.antt =====
-- A verification library for solana-smart-tx, a service that submits Jito bundles on Solana, follows
-- each of them from submission to finality, classifies the ones that fail, and lets an agent decide
-- how to retry them.
--
-- The parts, and the files that model them:
--   * Failure (crates/failure/src/lib.rs): the classifier of a failure from its evidence.
--     `classify` is in Failure/Classify, with the rejections of `sendBundle` in
--     Failure/Rejection, the on-chain errors in Failure/OnChain, the bundles that never landed in
--     Failure/NeverLanded, and the hex coding (also `hex_encode` of crates/stream and `to_hex` of
--     crates/lifecycle) in Failure/Hex.
--   * Lifecycle (crates/lifecycle/src/lib.rs): the tracker. Lifecycle/Types and Index have the
--     memory (`Inner`, `Pending`, the slot indices), Machine the transitions (`apply_event`,
--     `mark_*`, `fail_landed`, `forget`), Store the rows of `bundle_submissions` and `persist`,
--     Hydrate their reading at a restart, Tracker and Reconcile the operations of
--     `LifecycleTracker`. The proofs are in Cases, Invariant, Preserved, Events, Commitment,
--     Mirror, Mirrored, Operations, Submissions, Sweeps, Reconciled, Recovery, Rehydration,
--     Progress, Timeouts, History, Anchored, Swept and Reordered.
--   * Agent (crates/agent/src/lib.rs): actions and decisions (Types), `BaselineAgent` (Baseline),
--     `clamp_actions` (Guard), the reading of a model's reply (Reply) and the decision log (Log),
--     with the proofs in Rules and Outcomes.
--   * Orchestrator (crates/orchestrator/src/app.rs): the tip policy (Policy), `plan_actions`
--     (Plan), `agent_retry_loop` (Retry, its waits in Hold), `submit_one` (Pipeline, with the
--     payload in Payload), `run_retry` and `handle_timed_out` (Submission),
--     `spawn_bundle_status_poll` (Poll), the prefetching of swaps (Prefetch) and
--     `drain_to_terminal` (Drain), with the proofs in Tips, Plans, Stalls, Attempts, Spending,
--     Decisions, Outage, Sent, Handled, Warm, Capped, Budget, Verdicts and Drains.
--   * Leader (crates/leader/src/lib.rs): `next_jito_leader` (Schedule), the slot clock and the
--     refreshes (Clock), `fetch_validator_sets` (Source), `current_window` and `wait_for_window`
--     (Window), with the proofs in Ahead, Healthy, Listed, Waiting and Ticks.
--   * Tips (crates/tips/src/lib.rs): the bounded history of tip snapshots, its staleness and its
--     trend (Tracker, with the proofs in History), and `run` with `rest_poll_during` (Feed,
--     proofs in Fed).
--   * Stream (crates/stream/src/lib.rs): the events (Types), the decoding and the subscription
--     (Decode), `forward` under backpressure (Forward, with the proofs in Delivery), `Backoff`
--     (Backoff), and `run_connection` and `run_inner` (Client, with the proofs in Supervised and
--     Delays).
--   * Submitter (crates/submitter/src/lib.rs): the records and errors (Types), `JitoRateLimiter`
--     (Limiter, with the proofs in Pace and Paced), the tip accounts (TipAccounts, proofs in
--     Served), the bundle status (Status), the building of a bundle (Build) from what the Solana
--     crates give (Sdk), its diagnostic (Decode, proofs in Tipped), `submit` (Submit, proofs in
--     Preparation and Submitted), the requests of `LiveGateway` (Gateway, proofs in Answered),
--     `simulate_bundle` and `dry_run_swap_bundle` (Simulate, proofs in Rehearsed and DryRun), and
--     the cache that `spawn_blockhash_refresher` keeps (Blockhash).
--   * Runtime (crates/runtime/src/lib.rs): `mask_secret` and the redaction of one URL (Redact),
--     `redact_url` (Scan), and a URL by its parts (Url), with the proofs in Split, Urls, Blind,
--     Spans and Total.
--   * Examples: tests, and instances of the theorems.
--
-- How they interact: a stream event goes to `apply_event`, which changes the memory and returns the
-- writes for the rows; a failure goes through `classify` to a class in the row; the retry loop reads
-- the class, asks the agent, bounds its tips, and hands a bundle to the submitter, whose record goes
-- back to the tracker by `record_submission`.
--
-- Conventions. The memory under its lock and the rows are explicit state that the operations pass
-- on; each operation is one step, with the database statements that it awaits, although the source awaits
-- them outside the lock; the writes that `ingest` spawns are looked at in Lifecycle/Reordered. Maps are association lists. A `u64` is a
-- natural number whose bound stands as a hypothesis where a cast to `i64` needs it; the casts wrap
-- around, and sums of slots near 2^64 are outside the model. Time stamps are milliseconds that are passed in; the backoff counts nanoseconds. Text
-- that is searched is a list of code points; letters outside ASCII keep their case. The loop of
-- retries runs on fuel, one more than `max_attempts` (the wait for slots inside it on the list of the
-- clock's readings), the search for a leader on one more than the
-- length of the schedule, and the loop of `redact_url` on one more than the length of its text;
-- all are shown not to run out of it. Loops that run for ever (the supervisors, the polls) are
-- functions of the list of their turns. What lies outside the repository is a parameter: bincode's
-- reading of a transaction error, serde's reading and printing, the Solana crates' transactions
-- and codings, the HTTP response, the leader schedule and the validator sets, and in the retry
-- loop the model, the submitter, the clock and the tips of each iteration.
--
-- Not modelled: the network clients below their responses, the steps that only log, the
-- background tasks that only call what is modelled, the export of the log, the application's
-- wiring and configuration, and the reading of tip snapshots from JSON and floats. A database
-- statement fails only where the UNIQUE column `bundle_id` refuses a row.
pub mod Base
pub mod Runtime
pub mod Failure
pub mod Stream
pub mod Submitter
pub mod Lifecycle
pub mod Tips
pub mod Leader
pub mod Agent
pub mod Orchestrator
pub mod Examples
