-- ===== src/Orchestrator/Attempts.antt =====
-- The retry loop: a case rule for one iteration, an induction rule for the loop, and its end.
use solana_smart_tx.Base.{
  ℕ, zero, suc, ◌-◌, ◌<◌, ◌≤◌, String, ◌≡◌, inl, inr, Option, some, List, ◌∷◌, arith,
}
use solana_smart_tx.Base.Tests.{ltb, Bool-cases, Option-cases}
use solana_smart_tx.Failure.Types.{submit_rejection}
use solana_smart_tx.Failure.OnChain.{Deserialize}
use solana_smart_tx.Failure.Classify.{classify}
use solana_smart_tx.Submitter.Types.{BundleRecord, SubmitError, display}
use solana_smart_tx.Lifecycle.Tracker.{Tracker, record_submission}
use solana_smart_tx.Agent.Types.{ActionWire, DecisionContext}
use solana_smart_tx.Orchestrator.Plan.{Terminal, resubmits, abandons, no_terminal}
use solana_smart_tx.Base.{Bool, true, false, List, refl}
use solana_smart_tx.Orchestrator.Hold.{wait_slots}
use solana_smart_tx.Orchestrator.Plan.{ExecPlan}
use solana_smart_tx.Orchestrator.Retry.{
  LoopConfig, Round, SubmitResult, accepted, refused, LoopState, LoopEnd, abandoned, resubmitted,
  record_failed, attempt_cap, holding, after_hold, Turn, again, stop, plan_of, planned,
  settle_submit, resubmit_bundle, execute, turn, proceed, retry_loop,
}

module _ (deserialize : Deserialize) (to_string : List ActionWire → Option String)
    (context_json : DecisionContext → String) (cfg : LoopConfig)
    (bundle_db_id blockhash_fetched_at_slot : ℕ) where
  -- The state once the bundle is handed to the submitter.
  abbrev pub sending : LoopState → LoopState
  sending s = record s { attempt = suc s.attempt; sent = s.spec ∷ s.sent }

  abbrev refused_state : LoopState → SubmitError → LoopState
  refused_state s e = record s {
    evidence = submit_rejection (display e);
    classification = classify deserialize (submit_rejection (display e));
  }

  module _ {ℓ} (P : Turn → Type ℓ) where
    settle_submit_cases :
        (s : LoopState) (round : Round) (reply : SubmitResult)
        → P (stop s record_failed)
        → ((r : BundleRecord) (tracker : Tracker) (row : ℕ)
            → record_submission s.tracker r round.tips.p50 round.tips.p75 ≡ some (tracker, row)
            → P (stop (record s { tracker = tracker }) (resubmitted row)))
        → ((e : SubmitError) → P (again (refused_state s e)))
        → P (
            settle_submit deserialize to_string context_json cfg bundle_db_id
              blockhash_fetched_at_slot s round reply)
    unfolding settle_submit
    settle_submit_cases s round (accepted r) failed taken refuse =
        elim (Option-cases (record_submission s.tracker r round.tips.p50 round.tips.p75)) [
          | inl e ↦ rw (e, settle_submit) failed
          | inr ((tracker, row), e) ↦ rw (e, settle_submit) (taken r tracker row e)
        ]
    settle_submit_cases s round (refused e) failed taken refuse = refuse e

    resubmit_cases :
        (s : LoopState) (round : Round)
        → P (stop (sending s) record_failed)
        → ((r : BundleRecord) (tracker : Tracker) (row : ℕ)
            → record_submission s.tracker r round.tips.p50 round.tips.p75 ≡ some (tracker, row)
            → P (stop (record (sending s) { tracker = tracker }) (resubmitted row)))
        → ((e : SubmitError) → P (again (refused_state (sending s) e)))
        → P (
            resubmit_bundle deserialize to_string context_json cfg bundle_db_id
              blockhash_fetched_at_slot s round)
    unfolding resubmit_bundle
    resubmit_cases s round =
        settle_submit_cases (sending s) round (round.submit_bundle s.spec round.slot_after)

    execute_cases :
        (t : Terminal) (s : LoopState) (round : Round)
        → P (stop s abandoned)
        → P (stop (sending s) record_failed)
        → ((r : BundleRecord) (tracker : Tracker) (row : ℕ)
            → record_submission s.tracker r round.tips.p50 round.tips.p75 ≡ some (tracker, row)
            → P (stop (record (sending s) { tracker = tracker }) (resubmitted row)))
        → ((e : SubmitError) → P (again (refused_state (sending s) e)))
        → P (
            execute deserialize to_string context_json cfg bundle_db_id blockhash_fetched_at_slot t
              s round)
    execute_cases abandons s round quit failed taken refuse = quit
    execute_cases resubmits s round quit failed taken refuse =
        resubmit_cases s round failed taken refuse
    execute_cases no_terminal s round quit failed taken refuse =
        resubmit_cases s round failed taken refuse

  abbrev plans : LoopState → Round → LoopState
  plans s round =
      planned deserialize to_string context_json cfg bundle_db_id blockhash_fetched_at_slot s round

  abbrev step : LoopState → Round → Turn
  step s round =
      turn deserialize to_string context_json cfg bundle_db_id blockhash_fetched_at_slot s round

  -- One iteration: it is after_hold up, abandons the bundle, or hands it to the submitter, whose answer is accepted and
  -- recorded, accepted and not recorded, or a refusal that starts the next iteration.
  pub turn_cases {ℓ} :
      (P : Turn → Type ℓ) (s : LoopState) (round : Round)
      → let s' =
          planned deserialize to_string context_json cfg bundle_db_id blockhash_fetched_at_slot s
            round in
        (wait_slots
              (plan_of deserialize to_string context_json cfg bundle_db_id blockhash_fetched_at_slot
                s round).hold_slots
              round.clock
            ≡ false
          → P (stop s' holding))
        → P (stop s' abandoned)
        → P (stop (sending s') record_failed)
        → ((r : BundleRecord) (tracker : Tracker) (row : ℕ)
            → record_submission s.tracker r round.tips.p50 round.tips.p75 ≡ some (tracker, row)
            → P (stop (record (sending s') { tracker = tracker }) (resubmitted row)))
        → ((e : SubmitError) → P (again (refused_state (sending s') e)))
        → P (
            turn deserialize to_string context_json cfg bundle_db_id blockhash_fetched_at_slot s
              round)
  unfolding turn
  turn_cases P s round still quit failed taken refuse =
      go (wait_slots plan.hold_slots round.clock) refl
    where
      plan : ExecPlan
      plan =
          plan_of deserialize to_string context_json cfg bundle_db_id blockhash_fetched_at_slot s
            round

      go :
          (ended : Bool)
          → wait_slots plan.hold_slots round.clock ≡ ended
          → P (
              after_hold deserialize to_string context_json cfg bundle_db_id
                blockhash_fetched_at_slot ended plan.terminal
                (plans s round)
                round)
      go false e = still e
      go true e = execute_cases P plan.terminal (plans s round) round quit failed taken refuse

  -- What an iteration must show for the loop: `P` of the next state, or `Q` of the end.
  abbrev pub Proceeds {ℓ} :
      (LoopState → Type ℓ) → (LoopState × LoopEnd → Type ℓ) → ℕ → Turn → Type ℓ
  Proceeds P Q before (again s) = P s × (s.attempt ≡ suc before)
  Proceeds P Q before (stop s end) = Q (s, end)

  proceed-Proceeds {ℓ} :
      (P : LoopState → Type ℓ) (Q : LoopState × LoopEnd → Type ℓ) (before : ℕ)
      (rest : LoopState → LoopState × LoopEnd) (t : Turn)
      → ((s : LoopState) → s.attempt ≡ suc before → P s → Q (rest s))
      → Proceeds P Q before t
      → Q (proceed rest t)
  proceed-Proceeds P Q before rest (stop s end) later q = q
  proceed-Proceeds P Q before rest (again s) later (p, e) = later s e p

  -- Induction over the loop: what an iteration keeps holds at the end, which is never a lack of fuel.
  pub retry_loop_ind {ℓ} :
      (P : LoopState → Type ℓ) (Q : LoopState × LoopEnd → Type ℓ) (rounds : ℕ → Round)
      → ((s : LoopState)
          → s.attempt < cfg.max_attempts
          → P s
          → Proceeds P Q s.attempt (
              turn deserialize to_string context_json cfg bundle_db_id blockhash_fetched_at_slot s
                (rounds s.attempt)))
      → ((s : LoopState) → cfg.max_attempts ≤ s.attempt → P s → Q (s, attempt_cap))
      → (fuel : ℕ) (s : LoopState) → cfg.max_attempts - s.attempt < fuel
      → P s
      → Q (
          retry_loop deserialize to_string context_json cfg bundle_db_id blockhash_fetched_at_slot
            rounds fuel s)
  unfolding retry_loop
  retry_loop_ind P Q rounds keeps cap zero s enough p = absurd (omega arith)
  retry_loop_ind P Q rounds keeps cap (suc fuel) s enough p =
      elim (Bool-cases (ltb s.attempt cfg.max_attempts)) [
        | inl more ↦
            rw (more, retry_loop)
              (proceed-Proceeds P Q s.attempt
                (retry_loop deserialize to_string context_json cfg bundle_db_id
                  blockhash_fetched_at_slot rounds fuel)
                (step s (rounds s.attempt))
                (λ s' e p'. retry_loop_ind P Q rounds keeps cap fuel s' (ground arith) p')
                (keeps s (ground arith) p))
        | inr full ↦ rw (full, retry_loop) (cap s (ground arith) p)
      ]
