-- ===== src/Examples/Pipelining.antt =====
-- One submission in swap mode, on a staged swap, with a submitter that accepts or refuses.
use Prim.Native.Nat.{max}
use mathlib.Core.Path.{subst}
use solana_smart_tx.Base.{
  ℕ, ◌≡◌, ◌≢◌, ◌≤◌, refl, ap, String, ◌⊎◌, true, false, Option, none, some, [], inl, inr, arith,
}
use solana_smart_tx.Base.Tests.{string_eq}
use solana_smart_tx.Base.Int.{pos}
use solana_smart_tx.Base.Lists.{length, All}
use solana_smart_tx.Base.Map.{get, insert}
use solana_smart_tx.Base.Text.{codes}
use solana_smart_tx.Base.Result.{err}
use solana_smart_tx.Leader.Types.{LeaderWindow, LeaderError}
use solana_smart_tx.Submitter.Types.{BundleRecord, BundleSpec, stale_blockhash, transport}
use solana_smart_tx.Tips.Types.{TipSnapshot}
use solana_smart_tx.Lifecycle.Submissions.{FitsRecord}
use solana_smart_tx.Lifecycle.History.{Reach-Good}
use solana_smart_tx.Orchestrator.Policy.{swap, p75, normal_tip_policy}
use solana_smart_tx.Orchestrator.Retry.{SubmitResult, accepted, refused, out_of_fuel, holding}
use solana_smart_tx.Base.{◌⊎◌}
use solana_smart_tx.Orchestrator.Pipeline.{submit_one}
use solana_smart_tx.Orchestrator.Payload.{PreFetchedSwap, SubmissionConfig, Moment}
use solana_smart_tx.Orchestrator.Handled.{Fair, EndsIn, submit_one-EndsIn}
use solana_smart_tx.Orchestrator.Submission.{submit_and_retry}
use solana_smart_tx.Orchestrator.Capped.{WithinCap, Holds, submit_and_retry-Capped}
use solana_smart_tx.Examples.Tracking.{deserialize, one, one-Reach}
use solana_smart_tx.Examples.Retrying.{to_string, context_json, rounds}

abbrev settings : SubmissionConfig
settings = record {
  bam_priority_fee_enabled = true;
  bam_priority_fee_microlamports = 1000;
  bam_priority_fee_cu_limit = 200000;
  tip_percentile = p75;
  max_tip_lamports = 1000000;
  payload = swap;
}

abbrev show : ℕ → String
show n = "n"

abbrev staged : Option PreFetchedSwap
staged = some (record { swap_tx_base64 = "AQ=="; fetched_at_slot = 1980 })

abbrev pub open_window : LeaderWindow
open_window = record {
  current_slot = 2000;
  next_jito_leader_slot = 2004;
  slots_until = 4;
  leader_identity = none;
  is_bam = false;
}

abbrev floor : TipSnapshot
floor = record {
  taken_at = 1;
  p25_lamports = 1000;
  p50_lamports = 9000;
  p75_lamports = 11000;
  p95_lamports = 60000;
  p99_lamports = 90000;
  ema_p50_lamports = 9000;
}

abbrev pub asked : BundleSpec
asked = record {
  tip_lamports = 0;
  memo_text = "m";
  priority_fee_microlamports = 0;
  priority_fee_cu_limit = 0;
  swap_tx_base64 = none;
  fault = some (stale_blockhash 200);
}

abbrev moment : SubmitResult → Moment
moment reply = record {
  window = inr open_window;
  latest = some floor;
  is_stale = false;
  swap_payload = err (codes "jupiter is down");
  submit_bundle = λ spec slot. reply;
  rejection_seq = 3;
  now = pos 9000;
}

abbrev second : BundleRecord
second = record {
  bundle_id = "b2";
  tip_lamports = 11000;
  tip_account = "acct";
  memo_signature = "s2";
  tip_signature = "t2";
  blockhash = "h2";
  blockhash_fetched_at_slot = 1999;
  submitted_at = pos 9000;
  fault_injected = some "ExpiredBlockhash";
}

abbrev record_in : SubmitResult → BundleRecord
record_in (accepted r) = r
record_in (refused e) = second

is_second : (r : BundleRecord) → accepted second ≡ accepted r → second ≡ r
is_second r e = ap record_in e

abbrev slot_in : LeaderError ⊎ LeaderWindow → ℕ
slot_in (inl e) = 0
slot_in (inr w) = w.current_slot

second-Fits : FitsRecord second (some 9000) (some 11000)
second-Fits = record {
  tip = omega arith;
  slot = omega arith;
  median = omega arith;
  upper = omega arith;
}

accepting-Fair : Fair show settings (moment (accepted second)) one
unfolding normal_tip_policy get insert
accepting-Fair = record {
  tip = omega arith;
  slot = λ w e. omega (arith, ap slot_in e);
  median = omega arith;
  upper = omega arith;
  fits =
      λ s slot r e. subst (λ x. FitsRecord x (some 9000) (some 11000)) (is_second r e) second-Fits;
  unseen =
      λ s slot r e. subst (λ x. get x.memo_signature one.inner.by_sig ≡ none) (is_second r e) refl;
  marker = λ w e. refl;
}

submit_one-EndsIn_example :
    let u = submit_one deserialize show settings (moment (accepted second)) one staged asked in
    EndsIn deserialize show settings
      (moment (accepted second))
      one
      staged
      asked
      u.tracker
      u.sent
      u.submission
submit_one-EndsIn_example =
    submit_one-EndsIn deserialize show settings (moment (accepted second)) one staged asked
      accepting-Fair (Reach-Good one-Reach)

submit_and_retry-Capped_example :
    let s =
      submit_and_retry deserialize show to_string context_json 4 "m" settings
        (moment (refused (transport (codes "down"))))
        rounds
        []
        one
        staged
        asked in
    (s.end ≢ some out_of_fuel)
    × ((s.end ≢ some holding) ⊎ Holds deserialize show to_string context_json 4 "m" settings rounds)
    × (length s.sent ≤ max 1 4)
    × All (WithinCap settings) s.sent
submit_and_retry-Capped_example =
    submit_and_retry-Capped deserialize show to_string context_json 4 "m" settings
      (moment (refused (transport (codes "down")))) rounds [] one staged asked
