-- ===== src/Orchestrator/Pipeline.antt =====
-- crates/orchestrator/src/app.rs: `submit_one`, `record_synthetic_rejection` and `clear_fault`. What
-- it reads from outside is a `Moment`.
use Prim.Native.String.{◌++◌ as append}
use solana_smart_tx.Base.{ℕ, ◌+◌, String, ◌⊎◌, inl, inr, Option, none, some, List, [], ◌∷◌}
use solana_smart_tx.Base.Int.{ℤ}
use solana_smart_tx.Base.Text.{Text}
use solana_smart_tx.Failure.Types.{Classification, Evidence, submit_rejection}
use solana_smart_tx.Failure.OnChain.{Deserialize}
use solana_smart_tx.Failure.Classify.{classify}
use solana_smart_tx.Leader.Types.{LeaderWindow, LeaderError}
use solana_smart_tx.Submitter.Types.{BundleRecord, BundleSpec, display}
use solana_smart_tx.Lifecycle.Tracker.{Tracker, record_submission, record_rejection}
use solana_smart_tx.Orchestrator.Retry.{SubmitResult, accepted, refused}
use solana_smart_tx.Orchestrator.Payload.{
  PreFetchedSwap, SubmissionConfig, Moment, policy_at, priced, payload_for, left_staged,
}

-- `show` prints a number.
abbrev pub rejection_marker : (show : ℕ → String) → (current_slot uid : ℕ) → String
rejection_marker show current_slot uid =
    append "rejected-" (append (show current_slot) (append "-" (show uid)))

abbrev pub synthetic_record :
    (show : ℕ → String) → BundleSpec → (current_slot uid : ℕ) → ℤ → BundleRecord
synthetic_record show spec current_slot uid now = record {
  bundle_id = rejection_marker show current_slot uid;
  tip_lamports = spec.tip_lamports;
  tip_account = "";
  memo_signature = rejection_marker show current_slot uid;
  tip_signature = "";
  blockhash = "";
  blockhash_fetched_at_slot = current_slot;
  submitted_at = now;
  fault_injected = none;
}

abbrev pub clear_fault : BundleSpec → BundleSpec
clear_fault spec = record spec { fault = none }

-- How a submission ended. `retrying` hands over to `run_retry`, with the row, the evidence, the
-- spec and the slot; the two failures are those of the database.
pub data Submission : Type 0 where
  skipped untracked unlogged : Submission
  tracked : (row : ℕ) → Submission
  retrying : (row : ℕ) → Classification → Evidence → BundleSpec → (slot : ℕ) → Submission

pub record Submitted : Type 0 where
  pub tracker : Tracker
  pub staged : Option PreFetchedSwap
  pub sent : List BundleSpec
  pub rejection_seq : ℕ
  pub submission : Submission

module _ (deserialize : Deserialize) (show : ℕ → String) (cfg : SubmissionConfig) (m : Moment) where
  abbrev pub rejected_row : (raw_error : Text) → Option (Tracker × ℕ) → Option (Tracker × ℕ)
  rejected_row raw_error none = none
  rejected_row raw_error (some (t, id)) =
      some (record_rejection deserialize t id raw_error m.now, id)

  -- The row is inserted and marked as failed.
  unfoldable pub record_synthetic_rejection :
      Tracker → BundleSpec → (current_slot : ℕ) → (raw_error : Text) → Option (Tracker × ℕ)
  record_synthetic_rejection t spec current_slot raw_error = rejected_row raw_error (
      record_submission t (synthetic_record show spec current_slot m.rejection_seq m.now)
        (policy_at cfg m).p50 (policy_at cfg m).p75)

  abbrev pub after_accept :
      Tracker → Option PreFetchedSwap → BundleSpec → Option (Tracker × ℕ) → Submitted
  after_accept t staged spec none = record {
    tracker = t;
    staged = staged;
    sent = spec ∷ [];
    rejection_seq = m.rejection_seq;
    submission = untracked;
  }
  after_accept t staged spec (some (t', row)) = record {
    tracker = t';
    staged = staged;
    sent = spec ∷ [];
    rejection_seq = m.rejection_seq;
    submission = tracked row;
  }

  abbrev pub after_reject :
      Tracker
      → Option PreFetchedSwap
      → BundleSpec
      → (current_slot : ℕ) → (raw_error : Text) → Option (Tracker × ℕ)
      → Submitted
  after_reject t staged spec current_slot raw_error none = record {
    tracker = t;
    staged = staged;
    sent = spec ∷ [];
    rejection_seq = m.rejection_seq + 1;
    submission = unlogged;
  }
  after_reject t staged spec current_slot raw_error (some (t', id)) = record {
    tracker = t';
    staged = staged;
    sent = spec ∷ [];
    rejection_seq = m.rejection_seq + 1;
    submission =
        retrying id (classify deserialize (submit_rejection raw_error)) (submit_rejection raw_error)
          (clear_fault spec) current_slot;
  }

  abbrev pub settle :
      Tracker → Option PreFetchedSwap → BundleSpec → (current_slot : ℕ) → SubmitResult → Submitted
  settle t staged spec current_slot (accepted r) =
      after_accept t staged spec (record_submission t r (policy_at cfg m).p50 (policy_at cfg m).p75)
  settle t staged spec current_slot (refused e) =
      after_reject t staged spec current_slot (display e)
        (record_synthetic_rejection t spec current_slot (display e))

  abbrev pub skip : Tracker → Option PreFetchedSwap → Submitted
  skip t staged = record {
    tracker = t;
    staged = staged;
    sent = [];
    rejection_seq = m.rejection_seq;
    submission = skipped;
  }

  abbrev pub send_payload :
      Tracker → Option PreFetchedSwap → (current_slot : ℕ) → Option BundleSpec → Submitted
  send_payload t staged current_slot none = skip t staged
  send_payload t staged current_slot (some spec) =
      settle t staged spec current_slot (m.submit_bundle spec current_slot)

  abbrev pub in_window :
      Tracker → Option PreFetchedSwap → BundleSpec → LeaderError ⊎ LeaderWindow → Submitted
  in_window t staged spec (inl e) = skip t staged
  in_window t staged spec (inr w) =
      send_payload t (left_staged cfg.payload staged) w.current_slot
        (payload_for cfg.payload w.current_slot staged m.swap_payload (priced cfg m w.is_bam spec))

  unfoldable pub submit_one : Tracker → Option PreFetchedSwap → BundleSpec → Submitted
  unfolding payload_for record_synthetic_rejection
  submit_one t staged spec = in_window t staged spec m.window
