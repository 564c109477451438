-- ===== src/Orchestrator/Retry.antt =====
-- crates/orchestrator/src/app.rs: `agent_retry_loop` and `load_prior_attempts`. What the loop reads
-- from outside is a `Round` per iteration: the clock, the tips, the model and the submitter.
use solana_smart_tx.Base.{
  ℕ, zero, suc, ◌-◌, ◌%◌, ◌^◌, String, Bool, true, false, ◌&&◌, Option, none, some, List, [], ◌∷◌,
}
use Prim.Native.String.{◌++◌ as append}
use solana_smart_tx.Base.Tests.{nat_eq, ◌==◌, ltb, leb, if◌then◌else◌}
use solana_smart_tx.Failure.Types.{Classification, Evidence, submit_rejection}
use solana_smart_tx.Failure.OnChain.{Deserialize}
use solana_smart_tx.Failure.Classify.{classify}
use solana_smart_tx.Tips.Types.{TipTrend}
use solana_smart_tx.Submitter.Types.{BundleRecord, SubmitError, BundleSpec, display}
use solana_smart_tx.Lifecycle.Tracker.{Tracker, record_submission}
use solana_smart_tx.Agent.Types.{ActionWire, Decision, DecisionContext, PriorAttempt}
use solana_smart_tx.Agent.Baseline.{decide_sync}
use solana_smart_tx.Agent.Guard.{clamp_actions}
use solana_smart_tx.Agent.Reply.{Outcome, err, ok}
use solana_smart_tx.Agent.Log.{llm, baseline, DecisionRecord, decision_record, record_decision}
use solana_smart_tx.Orchestrator.Hold.{wait_slots}
use solana_smart_tx.Orchestrator.Plan.{
  ExecPlan, Terminal, resubmits, abandons, no_terminal, plan_actions,
}

pub record TipCtx : Type 0 where
  pub p50 : Option ℕ
  pub p75 : Option ℕ
  pub trend : Option TipTrend
  pub age_secs : Option ℕ

pub record LoopConfig : Type 0 where
  pub max_attempts : ℕ
  pub max_tip : ℕ
  pub model : String

pub data SubmitResult : Type 0 where
  accepted : BundleRecord → SubmitResult
  refused : SubmitError → SubmitResult

-- One iteration's view of the world: `slot` is read before the decision, `clock` by the wait
-- of a hold, as far as the run goes, and `slot_after` after it.
pub record Round : Type 0 where
  pub tips : TipCtx
  pub slot : ℕ
  pub clock : List ℕ
  pub slot_after : ℕ
  pub decide : DecisionContext → Outcome Decision
  pub latency_ms : ℕ
  pub submit_bundle : BundleSpec → ℕ → SubmitResult

-- `load_prior_attempts`: the executed rows of the bundle, in the order of their attempts.
abbrev attempt_before : DecisionRecord → DecisionRecord → Bool
attempt_before a b = leb a.attempt b.attempt

unfoldable insert_by_attempt : DecisionRecord → List DecisionRecord → List DecisionRecord
insert_by_attempt r [] = r ∷ []
insert_by_attempt r (s ∷ l) = if attempt_before r s then r ∷ s ∷ l else s ∷ insert_by_attempt r l

unfoldable executed_rows : ℕ → List DecisionRecord → List DecisionRecord
executed_rows bundle_db_id [] = []
executed_rows bundle_db_id (r ∷ l) =
    let rows = executed_rows bundle_db_id l in
    if r.bundle_db_id == bundle_db_id && r.executed then insert_by_attempt r rows else rows

abbrev prior_attempt : DecisionRecord → PriorAttempt
prior_attempt r = record {
  attempt = r.attempt % 2 ^ 32;
  decision_summary = append r.rationale (append " -> " r.actions_json);
  outcome = "failed; retried";
}

abbrev to_prior : List DecisionRecord → List PriorAttempt
to_prior [] = []
to_prior (r ∷ l) = prior_attempt r ∷ to_prior l

unfoldable pub load_prior_attempts : ℕ → List DecisionRecord → List PriorAttempt
unfolding executed_rows insert_by_attempt
load_prior_attempts bundle_db_id log = to_prior (executed_rows bundle_db_id log)

-- The loop's variables, the tables it writes, and the bundles it has asked to be sent, the last first.
pub record LoopState : Type 0 where
  pub attempt : ℕ
  pub classification : Classification
  pub evidence : Evidence
  pub spec : BundleSpec
  pub log : List DecisionRecord
  pub tracker : Tracker
  pub sent : List BundleSpec

pub data LoopEnd : Type 0 where
  abandoned : LoopEnd
  resubmitted : (row : ℕ) → LoopEnd
  record_failed : LoopEnd
  attempt_cap : LoopEnd
  holding : LoopEnd
  out_of_fuel : LoopEnd

pub data Turn : Type 0 where
  again : LoopState → Turn
  stop : LoopState → LoopEnd → Turn

-- What follows an iteration: the end, or the rest of the loop.
abbrev pub proceed : (LoopState → LoopState × LoopEnd) → Turn → LoopState × LoopEnd
proceed rest (stop s end) = (s, end)
proceed rest (again s) = rest s

abbrev pub with_tip : Option ℕ → BundleSpec → BundleSpec
with_tip none spec = spec
with_tip (some tip) spec = record spec { tip_lamports = tip }

module _ (deserialize : Deserialize) (to_string : List ActionWire → Option String)
    (context_json : DecisionContext → String) (cfg : LoopConfig)
    (bundle_db_id blockhash_fetched_at_slot : ℕ) where
  abbrev pub context_of : LoopState → Round → DecisionContext
  context_of s round = record {
    bundle_db_id = bundle_db_id;
    classification = s.classification;
    evidence = s.evidence;
    blockhash_age_slots = round.slot - blockhash_fetched_at_slot;
    tip_lamports = s.spec.tip_lamports;
    tip_p50_now = round.tips.p50;
    tip_p75_now = round.tips.p75;
    tip_trend = round.tips.trend;
    tip_data_age_secs = round.tips.age_secs;
    attempt = suc s.attempt;
    prior_attempts = load_prior_attempts bundle_db_id s.log;
    current_slot = round.slot;
  }

  -- The decision, and the row that tells of it; a failed model leaves the choice to the baseline.
  unfoldable pub decided : DecisionContext → ℕ → Outcome Decision → Decision × DecisionRecord
  decided ctx latency_ms (ok d) = (
    d,
    decision_record to_string bundle_db_id ctx.attempt llm (context_json ctx) d (some cfg.model)
        (some latency_ms) true,
  )
  decided ctx latency_ms (err e) = (
    decide_sync ctx,
    decision_record to_string bundle_db_id ctx.attempt baseline (context_json ctx) (decide_sync ctx)
        none none true,
  )

  -- The shadow row of the baseline, when the model was the one executed.
  unfoldable pub shadow :
      DecisionContext → Outcome Decision → List DecisionRecord → List DecisionRecord
  shadow ctx (ok d) log =
      record_decision
        (decision_record to_string bundle_db_id ctx.attempt baseline (context_json ctx)
          (decide_sync ctx) none none false)
        log
  shadow ctx (err e) log = log

  -- The match on the submitter's reply.
  unfoldable pub settle_submit : LoopState → Round → SubmitResult → Turn
  settle_submit s round (accepted r) =
      elim (record_submission s.tracker r round.tips.p50 round.tips.p75) [
        | none ↦ stop s record_failed
        | some (tracker, row) ↦ stop (record s { tracker = tracker }) (resubmitted row)
      ]
  settle_submit s round (refused e) =
      let evidence = submit_rejection (display e) in
      again (record s { evidence = evidence; classification = classify deserialize evidence })

  unfoldable pub resubmit_bundle : LoopState → Round → Turn
  unfolding settle_submit
  resubmit_bundle s round =
      settle_submit (record s { attempt = suc s.attempt; sent = s.spec ∷ s.sent }) round
        (round.submit_bundle s.spec round.slot_after)

  abbrev pub execute : Terminal → LoopState → Round → Turn
  execute abandons s round = stop s abandoned
  execute resubmits s round = resubmit_bundle s round
  execute no_terminal s round = resubmit_bundle s round

  -- What an iteration decides: the plan of the clamped decision, and the state with its tip and rows.
  unfoldable pub plan_of : LoopState → Round → ExecPlan
  unfolding decided
  plan_of s round =
      let ctx = context_of s round in
      let (decision, row) = decided ctx round.latency_ms (round.decide ctx) in
      plan_actions (clamp_actions decision cfg.max_tip).0.actions

  unfoldable pub log_of : LoopState → Round → List DecisionRecord
  unfolding decided shadow
  log_of s round =
      let ctx = context_of s round in
      let reply = round.decide ctx in
      shadow ctx reply (record_decision (decided ctx round.latency_ms reply).1 s.log)

  abbrev pub planned : LoopState → Round → LoopState
  planned s round = record s { spec = with_tip (plan_of s round).tip s.spec; log = log_of s round }

  -- A hold that has not ended keeps the loop where it is.
  abbrev pub after_hold : Bool → Terminal → LoopState → Round → Turn
  after_hold false t s round = stop s holding
  after_hold true t s round = execute t s round

  -- One iteration.
  unfoldable pub turn : LoopState → Round → Turn
  unfolding resubmit_bundle wait_slots
  turn s round =
      let plan = plan_of s round in
      after_hold (wait_slots plan.hold_slots round.clock) plan.terminal (planned s round) round

  -- `while attempt < max_attempts`, on fuel; `rounds n` is the view of the iteration after attempt n.
  unfoldable pub retry_loop : (ℕ → Round) → ℕ → LoopState → LoopState × LoopEnd
  unfolding turn
  retry_loop rounds zero s = (s, out_of_fuel)
  retry_loop rounds (suc fuel) s = elim (ltb s.attempt cfg.max_attempts) [
    | false ↦ (s, attempt_cap)
    | true ↦ proceed (retry_loop rounds fuel) (turn s (rounds s.attempt))
  ]

  -- The loop from the failed first attempt, with fuel for every attempt that is left.
  unfoldable pub agent_retry_loop :
      (ℕ → Round)
      → Classification
      → Evidence
      → BundleSpec
      → List DecisionRecord
      → Tracker
      → LoopState × LoopEnd
  agent_retry_loop rounds classification evidence spec log tracker =
      retry_loop rounds (suc cfg.max_attempts) (record {
        attempt = 1;
        classification = classification;
        evidence = evidence;
        spec = spec;
        log = log;
        tracker = tracker;
        sent = [];
      })
