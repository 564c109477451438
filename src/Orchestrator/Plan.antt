-- ===== src/Orchestrator/Plan.antt =====
-- crates/orchestrator/src/app.rs: `plan_actions`.
use Prim.Native.Nat.{min}
use solana_smart_tx.Base.{ℕ, ◌+◌, ◌-◌, Bool, true, false, Option, none, some, List, [], ◌∷◌}
use solana_smart_tx.Base.Int.{u64_bound}
use solana_smart_tx.Agent.Types.{Action, refresh_blockhash, set_tip, resubmit, hold, abandon}

pub data Terminal : Type 0 where
  resubmits abandons no_terminal : Terminal

pub record ExecPlan : Type 0 where
  pub refresh : Bool
  pub tip : Option ℕ
  pub hold_slots : ℕ
  pub terminal : Terminal

-- `saturating_add` on `u64`.
abbrev pub saturating_add : ℕ → ℕ → ℕ
saturating_add a b = min (a + b) (u64_bound - 1)

-- The loop over the actions; a terminal action breaks out of it.
unfoldable pub plan_from : ExecPlan → List Action → ExecPlan
plan_from plan [] = plan
plan_from plan (refresh_blockhash ∷ l) = plan_from (record plan { refresh = true }) l
plan_from plan (set_tip n ∷ l) = plan_from (record plan { tip = some n }) l
plan_from plan (hold slots ∷ l) =
    plan_from (record plan { hold_slots = saturating_add plan.hold_slots slots }) l
plan_from plan (resubmit ∷ l) = record plan { terminal = resubmits }
plan_from plan (abandon ∷ l) = record plan { terminal = abandons }

abbrev pub empty_plan : ExecPlan
empty_plan = record { refresh = false; tip = none; hold_slots = 0; terminal = no_terminal }

unfoldable pub plan_actions : List Action → ExecPlan
unfolding plan_from
plan_actions actions = plan_from empty_plan actions
