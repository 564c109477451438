-- ===== src/Agent/Types.antt =====
-- crates/agent/src/lib.rs: the context of a decision, the actions, and their form on the wire.
use solana_smart_tx.Base.{ℕ, String, Option, none, some, List, map}
use solana_smart_tx.Failure.Types.{Classification, Evidence}
use solana_smart_tx.Tips.Types.{TipTrend}

pub record PriorAttempt : Type 0 where
  pub attempt : ℕ
  pub decision_summary : String
  pub outcome : String

pub record DecisionContext : Type 0 where
  pub bundle_db_id : ℕ
  pub classification : Classification
  pub evidence : Evidence
  pub blockhash_age_slots : ℕ
  pub tip_lamports : ℕ
  pub tip_p50_now : Option ℕ
  pub tip_p75_now : Option ℕ
  pub tip_trend : Option TipTrend
  pub tip_data_age_secs : Option ℕ
  pub attempt : ℕ
  pub prior_attempts : List PriorAttempt
  pub current_slot : ℕ

pub data Action : Type 0 where
  refresh_blockhash : Action
  set_tip : (lamports : ℕ) → Action
  resubmit : Action
  hold : (slots : ℕ) → Action
  abandon : Action

pub record Decision : Type 0 where
  pub actions : List Action
  pub rationale : String

-- The form that serde reads and writes.
pub data ActionWire : Type 0 where
  refresh_blockhash : ActionWire
  set_tip : (lamports : ℕ) → ActionWire
  resubmit : ActionWire
  hold : (slots : ℕ) → ActionWire
  abandon : ActionWire

unfoldable pub action_of_wire : ActionWire → Action
action_of_wire ActionWire.refresh_blockhash = Action.refresh_blockhash
action_of_wire (ActionWire.set_tip lamports) = Action.set_tip lamports
action_of_wire ActionWire.resubmit = Action.resubmit
action_of_wire (ActionWire.hold slots) = Action.hold slots
action_of_wire ActionWire.abandon = Action.abandon

unfoldable pub wire_of_action : Action → ActionWire
wire_of_action Action.refresh_blockhash = ActionWire.refresh_blockhash
wire_of_action (Action.set_tip lamports) = ActionWire.set_tip lamports
wire_of_action Action.resubmit = ActionWire.resubmit
wire_of_action (Action.hold slots) = ActionWire.hold slots
wire_of_action Action.abandon = ActionWire.abandon

-- `actions_json`, over serde's printer, which may fail.
unfoldable pub actions_json : (List ActionWire → Option String) → List Action → String
unfolding wire_of_action
actions_json to_string actions = elim (to_string (map wire_of_action actions)) [
  | none ↦ "[]"
  | some s ↦ s
]
