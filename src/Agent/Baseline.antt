-- ===== src/Agent/Baseline.antt =====
-- crates/agent/src/lib.rs: `BaselineAgent::decide_sync`.
use Prim.Native.Nat.{min, max}
use solana_smart_tx.Base.{ℕ, ◌*◌, ◌-◌, Option, none, some, List, [], ◌∷◌}
use solana_smart_tx.Base.Tests.{leb, if◌then◌else◌}
use solana_smart_tx.Base.Int.{u64_bound}
use solana_smart_tx.Failure.Types.{
  FailureKind, expired_blockhash, fee_too_low, compute_exceeded, bundle_failure, transport_error,
  auction_lost, kind_label,
}
use solana_smart_tx.Agent.Types.{
  Action, refresh_blockhash, set_tip, resubmit, hold, abandon, Decision, DecisionContext,
}

-- `tip.saturating_mul(2)` on `u64`.
unfoldable doubled : ℕ → ℕ
doubled tip = min (tip * 2) (u64_bound - 1)

-- The tip that is set after a fee that was too low.
unfoldable target_tip : Option ℕ → ℕ → ℕ
unfolding doubled
target_tip none tip = doubled tip
target_tip (some p75) tip = max p75 (doubled tip)

unfoldable pub baseline_actions : FailureKind → ℕ → Option ℕ → ℕ → List Action
unfolding target_tip
baseline_actions expired_blockhash tip p75 attempt = refresh_blockhash ∷ resubmit ∷ []
baseline_actions fee_too_low tip p75 attempt =
    refresh_blockhash ∷ set_tip (target_tip p75 tip) ∷ resubmit ∷ []
baseline_actions compute_exceeded tip p75 attempt = abandon ∷ []
baseline_actions bundle_failure tip p75 attempt =
    if leb attempt 2 then refresh_blockhash ∷ resubmit ∷ [] else abandon ∷ []
baseline_actions auction_lost tip p75 attempt =
    if leb attempt 3 then refresh_blockhash ∷ resubmit ∷ [] else abandon ∷ []
baseline_actions transport_error tip p75 attempt =
    if leb attempt 3 then hold 4 ∷ resubmit ∷ [] else abandon ∷ []

unfoldable pub decide_sync : DecisionContext → Decision
unfolding baseline_actions kind_label
decide_sync ctx = record {
  actions = baseline_actions ctx.classification.kind ctx.tip_lamports ctx.tip_p75_now ctx.attempt;
  rationale = kind_label ctx.classification.kind;
}
