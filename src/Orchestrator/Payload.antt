-- ===== src/Orchestrator/Payload.antt =====
-- crates/orchestrator/src/app.rs: what `submit_one` reads, the price of a bundle and its payload.
use solana_smart_tx.Base.{ℕ, ◌-◌, String, Bool, ◌&&◌, ◌⊎◌, Option, none, some}
use solana_smart_tx.Base.Tests.{leb, if◌then◌else◌}
use solana_smart_tx.Base.Int.{ℤ}
use solana_smart_tx.Base.Result.{Result, err, ok}
use solana_smart_tx.Tips.Types.{TipSnapshot}
use solana_smart_tx.Leader.Types.{LeaderWindow, LeaderError}
use solana_smart_tx.Submitter.Types.{BundleSpec}
use solana_smart_tx.Orchestrator.Policy.{
  PayloadKind, memo, swap, TipPercentile, TipPolicy, normal_tip_policy,
}
use solana_smart_tx.Orchestrator.Retry.{SubmitResult}

abbrev pub swap_prefetch_max_age_slots : ℕ
swap_prefetch_max_age_slots = 50

pub record PreFetchedSwap : Type 0 where
  pub swap_tx_base64 : String
  pub fetched_at_slot : ℕ

-- The fields of `Config` that a submission reads.
pub record SubmissionConfig : Type 0 where
  pub bam_priority_fee_enabled : Bool
  pub bam_priority_fee_microlamports : ℕ
  pub bam_priority_fee_cu_limit : ℕ
  pub tip_percentile : TipPercentile
  pub max_tip_lamports : ℕ
  pub payload : PayloadKind

-- The window that was waited for, the tips, the swap that Jupiter gives if it is asked, the submitter,
-- the number of synthetic rejections so far, and the time.
pub record Moment : Type 0 where
  pub window : LeaderError ⊎ LeaderWindow
  pub latest : Option TipSnapshot
  pub is_stale : Bool
  pub swap_payload : Result String
  pub submit_bundle : BundleSpec → ℕ → SubmitResult
  pub rejection_seq : ℕ
  pub now : ℤ

abbrev pub policy_at : SubmissionConfig → Moment → TipPolicy
policy_at cfg m = normal_tip_policy m.latest m.is_stale cfg.tip_percentile cfg.max_tip_lamports

-- The fee for a BAM leader, and the tip of the policy.
abbrev pub priced : SubmissionConfig → Moment → (is_bam : Bool) → BundleSpec → BundleSpec
priced cfg m is_bam spec =
    let fee = is_bam && cfg.bam_priority_fee_enabled in
    record spec {
      priority_fee_microlamports = if fee then cfg.bam_priority_fee_microlamports else 0;
      priority_fee_cu_limit = if fee then cfg.bam_priority_fee_cu_limit else 0;
      tip_lamports = (policy_at cfg m).tip;
    }

abbrev pub with_swap : String → BundleSpec → BundleSpec
with_swap tx spec = record spec { swap_tx_base64 = some tx }

-- A staged swap that is young enough.
unfoldable pub fresh_swap : (current_slot : ℕ) → Option PreFetchedSwap → Option String
fresh_swap current_slot none = none
fresh_swap current_slot (some pf) =
    if leb (current_slot - pf.fetched_at_slot) swap_prefetch_max_age_slots
    then some pf.swap_tx_base64
    else none

abbrev pub fetched_or_skipped : Result String → BundleSpec → Option BundleSpec
fetched_or_skipped (ok tx) spec = some (with_swap tx spec)
fetched_or_skipped (err e) spec = none

abbrev pub use_swap : Option String → Result String → BundleSpec → Option BundleSpec
use_swap (some tx) fetched spec = some (with_swap tx spec)
use_swap none fetched spec = fetched_or_skipped fetched spec

-- The payload: in swap mode the staged swap, else one fetched in the window; `none` skips the window.
unfoldable pub payload_for :
    PayloadKind
    → (current_slot : ℕ) → Option PreFetchedSwap
    → Result String
    → BundleSpec
    → Option BundleSpec
unfolding fresh_swap
payload_for memo current_slot staged fetched spec = some spec
payload_for swap current_slot staged fetched spec =
    use_swap (fresh_swap current_slot staged) fetched spec

-- Swap mode takes what is staged, used or not.
abbrev pub left_staged : PayloadKind → Option PreFetchedSwap → Option PreFetchedSwap
left_staged memo staged = staged
left_staged swap staged = none
