-- ===== src/Orchestrator/Outage.antt =====
-- The retry loop while neither the model nor the block engine can be reached.
use solana_smart_tx.Base.{
  ℕ, suc, ◌≤◌, String, ◌≡◌, refl, ap, ◌⊎◌, inl, inr, true, false, Option, none, List, map, arith,
}
use solana_smart_tx.Base.Tests.{leb, if◌then◌else◌, Bool-cases}
use solana_smart_tx.Base.Lists.{length, All}
use solana_smart_tx.Base.Text.{Text}
use solana_smart_tx.Failure.Types.{
  FailureKind, transport_error, Confidence, Classification, Evidence, submit_rejection,
}
use solana_smart_tx.Failure.OnChain.{Deserialize}
use solana_smart_tx.Failure.Classify.{classify}
use solana_smart_tx.Failure.Priority.{transport_display}
use solana_smart_tx.Submitter.Types.{BundleSpec, transport, display}
use solana_smart_tx.Lifecycle.Tracker.{Tracker}
use solana_smart_tx.Agent.Types.{ActionWire, DecisionContext}
use solana_smart_tx.Agent.Baseline.{decide_sync, baseline_actions}
use solana_smart_tx.Agent.Guard.{clamp_action, clamp_actions}
use solana_smart_tx.Agent.Reply.{err, ReplyError}
use solana_smart_tx.Agent.Log.{DecisionRecord}
use solana_smart_tx.Orchestrator.Stalls.{wait_slots-none}
use solana_smart_tx.Orchestrator.Hold.{wait_slots}
use solana_smart_tx.Orchestrator.Plan.{ExecPlan, resubmits, abandons, plan_from, plan_actions}
use solana_smart_tx.Orchestrator.Retry.{
  LoopConfig, Round, refused, LoopState, LoopEnd, abandoned, attempt_cap, decided, context_of,
  plan_of, settle_submit, resubmit_bundle, turn, agent_retry_loop,
}
use solana_smart_tx.Orchestrator.Attempts.{Proceeds, retry_loop_ind}

-- The model fails, what is sent does not get through, and the slot clock runs on by four slots.
pub record Outage (rounds : ℕ → Round) : Type 0 where
  pub no_model :
      (n : ℕ) (ctx : DecisionContext) → (e : ReplyError) × ((rounds n).decide ctx ≡ err e)
  pub no_engine :
      (n : ℕ) (spec : BundleSpec) (slot : ℕ)
      → (e : Text) × ((rounds n).submit_bundle spec slot ≡ refused (transport e))
  pub hold_ends : (n : ℕ) → wait_slots 4 (rounds n).clock ≡ true

abbrev waiting_plan : ℕ → ExecPlan
waiting_plan attempt =
    if leb attempt 3
    then record { refresh = false; tip = none; hold_slots = 4; terminal = resubmits }
    else record { refresh = false; tip = none; hold_slots = 0; terminal = abandons }

baseline_waits :
    (tip : ℕ) (p75 : Option ℕ) (attempt bound : ℕ)
    → plan_actions (map (clamp_action bound) (baseline_actions transport_error tip p75 attempt))
      ≡ waiting_plan attempt
unfolding baseline_actions plan_actions plan_from clamp_action
baseline_waits tip p75 attempt bound = elim (Bool-cases (leb attempt 3)) [
  | inl few ↦ rw few refl
  | inr many ↦ rw many refl
]

transport_kind :
    (deserialize : Deserialize) (e : Text)
    → (classify deserialize (submit_rejection (display (transport e)))).kind ≡ transport_error
unfolding classify
transport_kind deserialize e = ap (λ (v : FailureKind × Confidence). v.0) (transport_display e)

module _ (deserialize : Deserialize) (to_string : List ActionWire → Option String)
    (context_json : DecisionContext → String) (cfg : LoopConfig)
    (bundle_db_id blockhash_fetched_at_slot : ℕ) (rounds : ℕ → Round) (out : Outage rounds) where
  plan_of_outage :
      (s : LoopState)
      → s.classification.kind ≡ transport_error
      → plan_of deserialize to_string context_json cfg bundle_db_id blockhash_fetched_at_slot s
          (rounds s.attempt)
        ≡ waiting_plan (suc s.attempt)
  unfolding plan_of decided decide_sync clamp_actions
  plan_of_outage s kind =
      let ctx : DecisionContext =
        context_of deserialize to_string context_json cfg bundle_db_id blockhash_fetched_at_slot s
          (rounds s.attempt) in
      let (e, failed) = out.no_model s.attempt ctx in
      rw (failed, decided)
        (rw kind (
          baseline_waits s.spec.tip_lamports (rounds s.attempt).tips.p75 (suc s.attempt)
            cfg.max_tip))

  record Waits (first : BundleSpec) (s : LoopState) : Type 0 where
    kind : s.classification.kind ≡ transport_error
    spec : s.spec ≡ first
    sent : All (λ sent. sent ≡ first) s.sent
    count : s.attempt ≡ suc (length s.sent)
    few : length s.sent ≤ 2

  abbrev Waited : BundleSpec → LoopState × LoopEnd → Type 0
  Waited first (s, end) =
      ((end ≡ abandoned) ⊎ ((end ≡ attempt_cap) × (cfg.max_attempts ≤ 3)))
      × All (λ sent. sent ≡ first) s.sent
      × (length s.sent ≤ 2)

  turn-Waits :
      (first : BundleSpec) (s : LoopState)
      → Waits first s
      → Proceeds deserialize to_string context_json cfg bundle_db_id blockhash_fetched_at_slot
          (Waits first)
          (Waited first)
          s.attempt
          (turn deserialize to_string context_json cfg bundle_db_id blockhash_fetched_at_slot s
            (rounds s.attempt))
  unfolding turn resubmit_bundle settle_submit
  turn-Waits first s p = elim (Bool-cases (leb (suc s.attempt) 3)) [
    | inl early ↦
        let (e, failed) = out.no_engine s.attempt s.spec (rounds s.attempt).slot_after in
        rw (turn, plan_of_outage s p.kind)
          (rw early (
            rw (out.hold_ends s.attempt) (
              rw (resubmit_bundle, failed, settle_submit)
                (
                  record {
                    kind = transport_kind deserialize e;
                    spec = p.spec;
                    sent = (p.spec, p.sent);
                    count = ap suc p.count;
                    few = ground (arith, p.count);
                  },
                  refl,
                ))))
    | inr late ↦
        rw (turn, plan_of_outage s p.kind)
          (rw late (rw (wait_slots-none (rounds s.attempt).clock) (inl refl, p.sent, p.few)))
  ]

  -- While the model fails, nothing gets through to the block engine and the slot clock runs, a bundle that failed for a
  -- transport error is sent at most twice more, as it was: no tip is raised. The loop then abandons
  -- it, or stops at the cap on the attempts if that is at most 3.
  pub agent_retry_loop-Waited :
      (classification : Classification) (evidence : Evidence) (spec : BundleSpec)
      (log : List DecisionRecord) (tracker : Tracker)
      → classification.kind ≡ transport_error
      → let (s, end) =
          agent_retry_loop deserialize to_string context_json cfg bundle_db_id
            blockhash_fetched_at_slot rounds classification evidence spec log tracker in
        ((end ≡ abandoned) ⊎ ((end ≡ attempt_cap) × (cfg.max_attempts ≤ 3)))
        × All (λ sent. sent ≡ spec) s.sent
        × (length s.sent ≤ 2)
  unfolding agent_retry_loop
  agent_retry_loop-Waited classification evidence spec log tracker kind =
      retry_loop_ind deserialize to_string context_json cfg bundle_db_id blockhash_fetched_at_slot
        (Waits spec) (Waited spec) rounds (λ s more p. turn-Waits spec s p)
        (λ s full p. (inr (refl, ground (arith, p.count, p.few)), p.sent, p.few))
        (suc cfg.max_attempts) _ (ground arith)
        (record { kind = kind; spec = refl; sent = tt; count = refl; few = omega arith })
