-- ===== src/Orchestrator/Plans.antt =====
-- What the plan of a decision is, against the list of its actions.
use solana_smart_tx.Base.{
  ℕ, ◌≤◌, ◌≡◌, refl, Bool, true, false, Option, none, some, List, [], ◌∷◌, ◌++◌,
}
use solana_smart_tx.Base.Lists.{All}
use solana_smart_tx.Agent.Types.{Action, refresh_blockhash, set_tip, resubmit, hold, abandon}
use solana_smart_tx.Agent.Rules.{TipWithin}
use solana_smart_tx.Orchestrator.Plan.{ExecPlan, plan_from, empty_plan, plan_actions}

-- An action that ends the plan.
abbrev pub ends : Action → Bool
ends resubmit = true
ends abandon = true
ends other = false

abbrev AllModifiers : List Action → Type 0
AllModifiers = All (λ a. ends a ≡ false)

plan_from_stops :
    (before after : List Action) (a : Action) (plan : ExecPlan)
    → ends a ≡ true
    → plan_from plan (before ++ a ∷ after) ≡ plan_from plan (before ++ a ∷ [])
unfolding plan_from
plan_from_stops [] after refresh_blockhash plan e = cc
plan_from_stops [] after (set_tip n) plan e = cc
plan_from_stops [] after (hold n) plan e = cc
plan_from_stops [] after resubmit plan e = refl
plan_from_stops [] after abandon plan e = refl
plan_from_stops (refresh_blockhash ∷ l) after a plan e = plan_from_stops l after a _ e
plan_from_stops (set_tip n ∷ l) after a plan e = plan_from_stops l after a _ e
plan_from_stops (hold n ∷ l) after a plan e = plan_from_stops l after a _ e
plan_from_stops (resubmit ∷ l) after a plan e = refl
plan_from_stops (abandon ∷ l) after a plan e = refl

-- Whatever follows the first action that ends a plan has no effect on it.
pub plan_actions_stops :
    (before after : List Action) (a : Action)
    → ends a ≡ true
    → plan_actions (before ++ a ∷ after) ≡ plan_actions (before ++ a ∷ [])
unfolding plan_actions
plan_actions_stops before after a e = plan_from_stops before after a empty_plan e

abbrev pub OptionWithin : ℕ → Option ℕ → Type 0
OptionWithin bound none = Unit {0}
OptionWithin bound (some n) = n ≤ bound

plan_from-Within :
    (bound : ℕ) (l : List Action) (plan : ExecPlan)
    → OptionWithin bound plan.tip
    → All (TipWithin bound) l
    → OptionWithin bound (plan_from plan l).tip
unfolding plan_from
plan_from-Within bound [] plan h t = h
plan_from-Within bound (refresh_blockhash ∷ l) plan h t = plan_from-Within bound l _ h t.1
plan_from-Within bound (set_tip n ∷ l) plan h t = plan_from-Within bound l _ t.0 t.1
plan_from-Within bound (hold n ∷ l) plan h t = plan_from-Within bound l _ h t.1
plan_from-Within bound (resubmit ∷ l) plan h t = h
plan_from-Within bound (abandon ∷ l) plan h t = h

-- The tip of a plan is within a bound that the tips of its actions are within.
pub plan_actions-Within :
    (bound : ℕ) (l : List Action)
    → All (TipWithin bound) l
    → OptionWithin bound (plan_actions l).tip
unfolding plan_actions
plan_actions-Within bound l t = plan_from-Within bound l empty_plan tt t
