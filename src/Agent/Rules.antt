-- ===== src/Agent/Rules.antt =====
-- What the baseline's decisions and the guardrail promise.
use solana_smart_tx.Base.{ℕ, ◌≤◌, ◌≡◌, refl, false, List, [], ◌∷◌, map, inl, inr, arith}
use solana_smart_tx.Base.Tests.{ltb, Bool-cases}
use solana_smart_tx.Base.Lists.{All, any}
use solana_smart_tx.Agent.Types.{
  Action, refresh_blockhash, set_tip, resubmit, hold, abandon, Decision, action_of_wire,
  wire_of_action,
}
use solana_smart_tx.Agent.Guard.{clamp_action, exceeds, clamp_actions}

abbrev pub TipWithin : ℕ → Action → Type 0
TipWithin bound (set_tip lamports) = lamports ≤ bound
TipWithin bound other = Unit {0}

clamp_action-Within : (bound : ℕ) (a : Action) → TipWithin bound (clamp_action bound a)
unfolding clamp_action
clamp_action-Within bound refresh_blockhash = tt
clamp_action-Within bound (set_tip lamports) = elim (Bool-cases (ltb bound lamports)) [
  | inl b ↦ rw b (ground arith)
  | inr b ↦ rw b (ground arith)
]
clamp_action-Within bound resubmit = tt
clamp_action-Within bound (hold slots) = tt
clamp_action-Within bound abandon = tt

clamp-Within : (bound : ℕ) (l : List Action) → All (TipWithin bound) (map (clamp_action bound) l)
clamp-Within bound [] = tt
clamp-Within bound (a ∷ l) = (clamp_action-Within bound a, clamp-Within bound l)

clamp_fixes : (bound : ℕ) (a : Action) → exceeds bound a ≡ false → clamp_action bound a ≡ a
unfolding clamp_action exceeds
clamp_fixes bound refresh_blockhash h = refl
clamp_fixes bound (set_tip lamports) h = rw h refl
clamp_fixes bound resubmit h = refl
clamp_fixes bound (hold slots) h = refl
clamp_fixes bound abandon h = refl

clamp_same :
    (bound : ℕ) (l : List Action) → any (exceeds bound) l ≡ false → map (clamp_action bound) l ≡ l
clamp_same bound [] h = refl
clamp_same bound (a ∷ l) h =
    rw (clamp_fixes bound a (ground arith), clamp_same bound l (ground arith)) refl

-- The guardrail leaves every tip of a decision within the bound, keeps the rationale, and, where it
-- says that nothing was clamped, keeps the decision as it was.
pub clamp_actions-Within :
    (d : Decision) (bound : ℕ)
    → let (d', clamped) = clamp_actions d bound in
      All (TipWithin bound) d'.actions
      × (d'.rationale ≡ d.rationale)
      × (clamped ≡ false → d'.actions ≡ d.actions)
unfolding clamp_actions
clamp_actions-Within d bound =
    (clamp-Within bound d.actions, refl, λ h. clamp_same bound d.actions h)

unwire_action : (a : Action) → action_of_wire (wire_of_action a) ≡ a
unfolding action_of_wire wire_of_action
unwire_action refresh_blockhash = refl
unwire_action (set_tip lamports) = refl
unwire_action resubmit = refl
unwire_action (hold slots) = refl
unwire_action abandon = refl

unwire : (l : List Action) → map action_of_wire (map wire_of_action l) ≡ l
unwire [] = refl
unwire (a ∷ l) = rw (unwire_action a, unwire l) refl
