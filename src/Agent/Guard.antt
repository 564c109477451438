-- ===== src/Agent/Guard.antt =====
-- crates/agent/src/lib.rs: `clamp_actions`.
use solana_smart_tx.Base.{ℕ, Bool, false, map}
use solana_smart_tx.Base.Tests.{ltb, if◌then◌else◌}
use solana_smart_tx.Base.Lists.{any}
use solana_smart_tx.Agent.Types.{Action, set_tip, Decision}

unfoldable pub clamp_action : ℕ → Action → Action
clamp_action max_tip_lamports (set_tip value) =
    if ltb max_tip_lamports value then set_tip max_tip_lamports else set_tip value
clamp_action max_tip_lamports other = other

-- Whether the closure sets its flag on this action.
unfoldable pub exceeds : ℕ → Action → Bool
exceeds max_tip_lamports (set_tip value) = ltb max_tip_lamports value
exceeds max_tip_lamports other = false

unfoldable pub clamp_actions : Decision → ℕ → Decision × Bool
unfolding clamp_action exceeds
clamp_actions decision max_tip_lamports = (
  record {
    actions = map (clamp_action max_tip_lamports) decision.actions;
    rationale = decision.rationale;
  },
  any (exceeds max_tip_lamports) decision.actions,
)
