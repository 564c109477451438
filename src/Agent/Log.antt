-- ===== src/Agent/Log.antt =====
-- crates/agent/src/lib.rs: the table `agent_decisions`.
use solana_smart_tx.Base.{ℕ, String, Bool, Option, List, [], ◌∷◌, ◌++◌}
use solana_smart_tx.Agent.Types.{ActionWire, Decision, actions_json}

pub data AgentKind : Type 0 where
  llm baseline : AgentKind

unfoldable agent_label : AgentKind → String
agent_label llm = "llm"
agent_label baseline = "baseline"

pub record DecisionRecord : Type 0 where
  pub bundle_db_id : ℕ
  pub attempt : ℕ
  pub agent_kind : AgentKind
  pub context_json : String
  pub actions_json : String
  pub rationale : String
  pub model : Option String
  pub latency_ms : Option ℕ
  pub executed : Bool

-- `DecisionRecord::new`.
unfoldable pub decision_record :
    (List ActionWire → Option String)
    → ℕ
    → ℕ
    → AgentKind
    → String
    → Decision
    → Option String
    → Option ℕ
    → Bool
    → DecisionRecord
decision_record to_string bundle_db_id attempt agent_kind context_json decision model latency_ms
      executed =
    record {
      bundle_db_id = bundle_db_id;
      attempt = attempt;
      agent_kind = agent_kind;
      context_json = context_json;
      actions_json = actions_json to_string decision.actions;
      rationale = decision.rationale;
      model = model;
      latency_ms = latency_ms;
      executed = executed;
    }

-- `record_decision`: the INSERT. The rows are kept in the order of their keys.
unfoldable pub record_decision : DecisionRecord → List DecisionRecord → List DecisionRecord
record_decision r log = log ++ r ∷ []
