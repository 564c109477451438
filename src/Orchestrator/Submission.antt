-- ===== src/Orchestrator/Submission.antt =====
-- crates/orchestrator/src/app.rs: `submit_one` with the `run_retry` that it ends in, and
-- `handle_timed_out`, which enters the retry loop from the row of a swept bundle.
use Prim.Native.String.{◌++◌ as append}
use Prim.Native.Nat.{max}
use solana_smart_tx.Base.{ℕ, String, Option, none, some, List, [], ◌++◌}
use solana_smart_tx.Base.Tests.{nat_eq}
use solana_smart_tx.Base.Int.{from_i64}
use solana_smart_tx.Base.Map.{get}
use solana_smart_tx.Base.Text.{Text}
use solana_smart_tx.Failure.Types.{Classification, Evidence, never_landed, from_status_str}
use solana_smart_tx.Failure.OnChain.{Deserialize}
use solana_smart_tx.Failure.Classify.{classify}
use solana_smart_tx.Submitter.Types.{BundleSpec}
use solana_smart_tx.Lifecycle.Machine.{map_option}
use solana_smart_tx.Lifecycle.Store.{LogRow}
use solana_smart_tx.Lifecycle.Tracker.{Tracker}
use solana_smart_tx.Agent.Types.{ActionWire, DecisionContext}
use solana_smart_tx.Agent.Log.{DecisionRecord}
use solana_smart_tx.Orchestrator.Retry.{LoopConfig, Round, LoopState, LoopEnd, agent_retry_loop}
use solana_smart_tx.Orchestrator.Pipeline.{
  Submission, skipped, untracked, unlogged, tracked, retrying, submit_one,
}
use solana_smart_tx.Orchestrator.Payload.{PreFetchedSwap, SubmissionConfig, Moment}

-- `base_spec`.
abbrev pub base_spec : ℕ → String → BundleSpec
base_spec tip memo = record {
  tip_lamports = tip;
  memo_text = memo;
  priority_fee_microlamports = 0;
  priority_fee_cu_limit = 0;
  swap_tx_base64 = none;
  fault = none;
}

pub record BundleRow : Type 0 where
  pub tip_lamports : ℕ
  pub tip_p50 : Option ℕ
  pub tip_p75 : Option ℕ
  pub blockhash_fetched_at_slot : ℕ
  pub submitted_slot : ℕ
  pub jito_inflight_status : Option Text

-- `load_bundle_row` of a row that is there.
abbrev pub bundle_row : LogRow → BundleRow
bundle_row r = record {
  tip_lamports = from_i64 r.tip_lamports;
  tip_p50 = map_option from_i64 r.tip_p50_at_submit;
  tip_p75 = map_option from_i64 r.tip_p75_at_submit;
  blockhash_fetched_at_slot = from_i64 r.blockhash_fetched_at_slot;
  submitted_slot = from_i64 r.submitted_slot;
  jito_inflight_status = r.jito_inflight_status;
}

abbrev pub row_evidence : BundleRow → (slot_clock : ℕ) → Evidence
row_evidence r slot_clock =
    never_landed r.submitted_slot r.blockhash_fetched_at_slot
      (max slot_clock r.blockhash_fetched_at_slot) r.tip_lamports r.tip_p50 r.tip_p75
      (from_status_str r.jito_inflight_status)

-- All the bundles that one submission sent, the last first, with how its retry loop ended if it had one.
pub record Submissions : Type 0 where
  pub tracker : Tracker
  pub log : List DecisionRecord
  pub sent : List BundleSpec
  pub end : Option LoopEnd

module _ (deserialize : Deserialize) (show : ℕ → String)
    (to_string : List ActionWire → Option String) (context_json : DecisionContext → String)
    (max_attempts : ℕ) (model : String) (cfg : SubmissionConfig) where
  abbrev pub loop_config : LoopConfig
  loop_config = record {
    max_attempts = max_attempts;
    max_tip = cfg.max_tip_lamports;
    model = model;
  }

  -- `run_retry`.
  unfoldable pub run_retry :
      (ℕ → Round)
      → (bundle_db_id : ℕ) → Classification
      → Evidence
      → BundleSpec
      → (blockhash_fetched_at_slot : ℕ) → List DecisionRecord
      → Tracker
      → LoopState × LoopEnd
  run_retry rounds id c e spec slot log t =
      agent_retry_loop deserialize to_string context_json loop_config id slot rounds c e spec log t

  abbrev pub with_retries : List BundleSpec → LoopState × LoopEnd → Submissions
  with_retries sent (s, end) = record {
    tracker = s.tracker;
    log = s.log;
    sent = s.sent ++ sent;
    end = some end;
  }

  abbrev pub no_retries : List DecisionRecord → Tracker → List BundleSpec → Submissions
  no_retries log t sent = record { tracker = t; log = log; sent = sent; end = none }

  abbrev pub retried :
      (ℕ → Round) → List DecisionRecord → Tracker → List BundleSpec → Submission → Submissions
  retried rounds log t sent (retrying id c e spec slot) =
      with_retries sent (run_retry rounds id c e spec slot log t)
  retried rounds log t sent skipped = no_retries log t sent
  retried rounds log t sent untracked = no_retries log t sent
  retried rounds log t sent unlogged = no_retries log t sent
  retried rounds log t sent (tracked row) = no_retries log t sent

  -- All of `submit_one`.
  unfoldable pub submit_and_retry :
      Moment
      → (ℕ → Round)
      → List DecisionRecord
      → Tracker
      → Option PreFetchedSwap
      → BundleSpec
      → Submissions
  unfolding run_retry
  submit_and_retry m rounds log t staged spec =
      let u = submit_one deserialize show cfg m t staged spec in
      retried rounds log u.tracker u.sent u.submission

  abbrev pub from_row :
      (ℕ → Round)
      → (slot_clock id : ℕ) → List DecisionRecord
      → Tracker
      → Option LogRow
      → Submissions
  from_row rounds slot_clock id log t none = no_retries log t []
  from_row rounds slot_clock id log t (some row) =
      let r = bundle_row row in
      let evidence = row_evidence r slot_clock in
      with_retries [] (
        run_retry rounds id (classify deserialize evidence) evidence
          (base_spec r.tip_lamports (append "retry-of-" (show id))) r.blockhash_fetched_at_slot log
          t)

  -- `handle_timed_out`; without the row it fails and does nothing.
  unfoldable pub handle_timed_out :
      (ℕ → Round) → (slot_clock id : ℕ) → List DecisionRecord → Tracker → Submissions
  unfolding run_retry
  handle_timed_out rounds slot_clock id log t =
      from_row rounds slot_clock id log t (get id t.db.rows)
