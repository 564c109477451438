-- ===== src/Orchestrator/Capped.antt =====
-- The cap on the tips and on the number of bundles, over a submission and its retries.
use Prim.Native.Nat.{max}
use mathlib.Core.Option.{some-injective}
use solana_smart_tx.Base.{
  ℕ, ◌≤◌, ◌<◌, ◌≢◌, refl, String, ◌⊎◌, inl, inr, Option, none, some, List, arith,
}
use solana_smart_tx.Base.Lists.{length, length-append, All, All-append, All-map}
use solana_smart_tx.Base.Text.{Text}
use solana_smart_tx.Failure.OnChain.{Deserialize}
use solana_smart_tx.Leader.Types.{LeaderWindow, LeaderError}
use solana_smart_tx.Submitter.Types.{BundleSpec, display}
use solana_smart_tx.Lifecycle.Tracker.{Tracker}
use solana_smart_tx.Agent.Types.{ActionWire, DecisionContext}
use solana_smart_tx.Agent.Log.{DecisionRecord}
use solana_smart_tx.Orchestrator.Retry.{
  SubmitResult, accepted, refused, Round, LoopState, LoopEnd, out_of_fuel, holding,
}
use solana_smart_tx.Orchestrator.Spending.{
  Stalled, EndsUnlessStalled, Affordable, agent_retry_loop-Spent,
}
use solana_smart_tx.Orchestrator.Sent.{PayloadFor, payload_for-PayloadFor}
use solana_smart_tx.Orchestrator.Pipeline.{
  Submission, skipped, untracked, unlogged, tracked, retrying, after_accept, after_reject, settle,
  send_payload, in_window, submit_one,
}
use solana_smart_tx.Orchestrator.Payload.{
  PreFetchedSwap, SubmissionConfig, Moment, priced, payload_for, left_staged,
}
use solana_smart_tx.Orchestrator.Submission.{
  Submissions, loop_config, run_retry, with_retries, retried, submit_and_retry,
}

abbrev pub WithinCap : SubmissionConfig → BundleSpec → Type 0
WithinCap cfg s = s.tip_lamports ≤ cfg.max_tip_lamports

-- What a submission has sent before its retries, and with which spec they start.
abbrev First : SubmissionConfig → List BundleSpec → Submission → Type 0
First cfg sent (retrying id c e s slot) =
    (length sent ≤ 1) × All (WithinCap cfg) sent × WithinCap cfg s
First cfg sent skipped = (length sent ≤ 1) × All (WithinCap cfg) sent
First cfg sent untracked = (length sent ≤ 1) × All (WithinCap cfg) sent
First cfg sent unlogged = (length sent ≤ 1) × All (WithinCap cfg) sent
First cfg sent (tracked row) = (length sent ≤ 1) × All (WithinCap cfg) sent

module _ (deserialize : Deserialize) (show : ℕ → String) (cfg : SubmissionConfig) (m : Moment)
    (t : Tracker) (staged : Option PreFetchedSwap) (spec : BundleSpec) where
  accept-First :
      (s : BundleSpec) (o : Option (Tracker × ℕ))
      → WithinCap cfg s
      → let u = after_accept deserialize show cfg m t (left_staged cfg.payload staged) s o in
        First cfg u.sent u.submission
  accept-First s none h = (omega arith, (h, tt))
  accept-First s (some (t', row)) h = (omega arith, (h, tt))

  reject-First :
      (s : BundleSpec) (slot : ℕ) (raw : Text) (o : Option (Tracker × ℕ))
      → WithinCap cfg s
      → let u =
          after_reject deserialize show cfg m t (left_staged cfg.payload staged) s slot raw o in
        First cfg u.sent u.submission
  reject-First s slot raw none h = (omega arith, (h, tt))
  reject-First s slot raw (some (t', id)) h = (omega arith, (h, tt), h)

  settle-First :
      (s : BundleSpec) (slot : ℕ) (reply : SubmitResult)
      → WithinCap cfg s
      → let u = settle deserialize show cfg m t (left_staged cfg.payload staged) s slot reply in
        First cfg u.sent u.submission
  settle-First s slot (accepted r) h = accept-First s _ h
  settle-First s slot (refused e) h = reject-First s slot (display e) _ h

  send-First :
      (w : LeaderWindow) (o : Option BundleSpec)
      → PayloadFor cfg m w staged spec o
      → let u =
          send_payload deserialize show cfg m t (left_staged cfg.payload staged) w.current_slot o in
        First cfg u.sent u.submission
  send-First w none p = (omega arith, tt)
  send-First w (some s) sends =
      settle-First s w.current_slot (m.submit_bundle s w.current_slot) sends.affordable

  window-First :
      (window : LeaderError ⊎ LeaderWindow)
      → let u = in_window deserialize show cfg m t staged spec window in
        First cfg u.sent u.submission
  window-First (inl e) = (omega arith, tt)
  window-First (inr w) =
      send-First w
        (payload_for cfg.payload w.current_slot staged m.swap_payload (priced cfg m w.is_bam spec))
        (payload_for-PayloadFor cfg m w spec staged cfg.payload refl)

module _ (deserialize : Deserialize) (show : ℕ → String)
    (to_string : List ActionWire → Option String) (context_json : DecisionContext → String)
    (max_attempts : ℕ) (model : String) (cfg : SubmissionConfig) where
  -- The retries are held, in the loop for some row, by a wait whose target the clock has not reached.
  abbrev pub Holds : (ℕ → Round) → Type 0
  Holds rounds =
      (id : ℕ) × (slot : ℕ) × (final : LoopState) × Stalled deserialize to_string context_json
        (loop_config deserialize show to_string context_json max_attempts model cfg) id slot rounds
        final

  abbrev pub Capped : (ℕ → Round) → Submissions → Type 0
  Capped rounds s =
      (s.end ≢ some out_of_fuel)
      × ((s.end ≢ some holding) ⊎ Holds rounds)
      × (length s.sent ≤ max 1 max_attempts)
      × All (WithinCap cfg) s.sent

  -- One bundle at most, then the retries.
  retries_lem :
      (sent : List BundleSpec) (first : BundleSpec)
      → length sent ≤ 1
      → All (WithinCap cfg) sent
      → WithinCap cfg first
      → (rounds : ℕ → Round) (id slot : ℕ) (r : LoopState × LoopEnd)
      → (r.1 ≢ out_of_fuel)
        × EndsUnlessStalled deserialize to_string context_json
            (loop_config deserialize show to_string context_json max_attempts model cfg)
            id
            slot
            rounds
            r.0
            r.1
        × (length r.0.sent < max 1 max_attempts)
        × All (Affordable (max cfg.max_tip_lamports first.tip_lamports) first) r.0.sent
      → Capped rounds
          (with_retries deserialize show to_string context_json max_attempts model cfg sent r)
  retries_lem sent first few all within rounds id slot (s, end) (ended, unless, less, tips) = (
    (λ e. ended (some-injective end out_of_fuel e)),
    still_unless end unless,
    ground (arith, length-append s.sent sent),
    All-append (WithinCap cfg) s.sent sent
        (All-map _ (WithinCap cfg) s.sent (λ x (le, same). omega (arith, le, within)) tips) all,
  )
    where
      still_unless :
          (end : LoopEnd)
          → EndsUnlessStalled deserialize to_string context_json
              (loop_config deserialize show to_string context_json max_attempts model cfg)
              id
              slot
              rounds
              s
              end
          → (some end ≢ some holding) ⊎ Holds rounds
      still_unless end (inl ends) = inl (λ e. ends (some-injective end holding e))
      still_unless end (inr stalled) = inr (id, slot, s, stalled)

  retried-Capped :
      (rounds : ℕ → Round) (log : List DecisionRecord) (t : Tracker) (sent : List BundleSpec)
      (u : Submission)
      → First cfg sent u
      → Capped rounds (
          retried deserialize show to_string context_json max_attempts model cfg rounds log t sent
            u)
  unfolding run_retry
  retried-Capped rounds log t sent skipped (few, all) = ((λ e. cc), inl (λ e. cc), omega arith, all)
  retried-Capped rounds log t sent untracked (few, all) =
      ((λ e. cc), inl (λ e. cc), omega arith, all)
  retried-Capped rounds log t sent unlogged (few, all) =
      ((λ e. cc), inl (λ e. cc), omega arith, all)
  retried-Capped rounds log t sent (tracked row) (few, all) =
      ((λ e. cc), inl (λ e. cc), omega arith, all)
  retried-Capped rounds log t sent (retrying id c e s slot) (few, all, within) =
      retries_lem sent s few all within rounds id slot
        (run_retry deserialize show to_string context_json max_attempts model cfg rounds id c e s
          slot log t)
        (agent_retry_loop-Spent deserialize to_string context_json
          (loop_config deserialize show to_string context_json max_attempts model cfg) id slot
          rounds c e s log t)

  -- The bundles that one submission hands to the submitter, by itself and in its retry loop, are at most
  -- `max_attempts` (one if that is 0), and each has a tip of at most `max_tip_lamports`, whatever the
  -- window, the tips, the swaps, the model, the clock and the submitter do. The loop comes to its end,
  -- or is held in an iteration by the wait for the slots of its plan, in which no reading of the clock has
  -- reached the target.
  pub submit_and_retry-Capped :
      (m : Moment) (rounds : ℕ → Round) (log : List DecisionRecord) (t : Tracker)
      (staged : Option PreFetchedSwap) (spec : BundleSpec)
      → let s =
          submit_and_retry deserialize show to_string context_json max_attempts model cfg m rounds
            log t staged spec in
        (s.end ≢ some out_of_fuel)
        × ((s.end ≢ some holding) ⊎ Holds rounds)
        × (length s.sent ≤ max 1 max_attempts)
        × All (WithinCap cfg) s.sent
  unfolding submit_and_retry submit_one
  submit_and_retry-Capped m rounds log t staged spec =
      retried-Capped rounds log _ _ _ (window-First deserialize show cfg m t staged spec m.window)
