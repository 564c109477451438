-- ===== src/Examples/Retrying.antt =====
-- The decision layer and the retry loop on concrete rounds.
use solana_smart_tx.Base.{
  ℕ, ◌<◌, ◌≤◌, ◌≡◌, ◌≢◌, refl, String, false, Option, none, some, List, [], ◌∷◌, ◌++◌, ◌⊎◌,
}
use Prim.Native.Nat.{max}
use solana_smart_tx.Base.Lists.{length, All}
use solana_smart_tx.Base.Text.{Text, codes}
use solana_smart_tx.Failure.Types.{
  Classification, Evidence, submit_rejection, fee_too_low, transport_error, certain,
}
use solana_smart_tx.Submitter.Types.{BundleSpec, transport}
use solana_smart_tx.Agent.Types.{
  refresh_blockhash, set_tip, resubmit, Decision, ActionWire, DecisionContext,
}
use solana_smart_tx.Agent.Guard.{clamp_actions}
use solana_smart_tx.Agent.Rules.{TipWithin, clamp_actions-Within}
use solana_smart_tx.Agent.Reply.{
  HttpResponse, ContentBlock, ReplyWire, request_failed, err, ok, http_status, decide,
}
use solana_smart_tx.Agent.Log.{DecisionRecord}
use solana_smart_tx.Orchestrator.Retry.{
  LoopConfig, refused, Round, LoopState, LoopEnd, out_of_fuel, abandoned, attempt_cap,
  agent_retry_loop,
}
use solana_smart_tx.Orchestrator.Hold.{wait_slots}
use solana_smart_tx.Orchestrator.Spending.{EndsUnlessStalled, Affordable, agent_retry_loop-Spent}
use solana_smart_tx.Orchestrator.Decisions.{
  executed_attempts, count_up, iterations, Tracked, agent_retry_loop-Kept,
}
use solana_smart_tx.Tips.Types.{TipSnapshot}
use solana_smart_tx.Tips.Tracker.{TipState, web_socket}
use solana_smart_tx.Orchestrator.Policy.{p75}
use solana_smart_tx.Orchestrator.Outage.{Outage, agent_retry_loop-Waited}
use solana_smart_tx.Examples.Tracking.{deserialize, start}

abbrev greedy : Decision
greedy = record { actions = refresh_blockhash ∷ set_tip 9000000 ∷ resubmit ∷ []; rationale = "r" }

clamp_actions-Within_example :
    let (d', clamped) = clamp_actions greedy 1000000 in
    All (TipWithin 1000000) d'.actions
    × (d'.rationale ≡ greedy.rationale)
    × (clamped ≡ false → d'.actions ≡ greedy.actions)
clamp_actions-Within_example = clamp_actions-Within greedy 1000000

abbrev no_envelope : Text → Option (List ContentBlock)
no_envelope body = none

abbrev no_decision : Text → Option ReplyWire
no_decision text = none

abbrev overloaded : HttpResponse
overloaded = record { status = 529; body = codes "overloaded" }

overloaded_lem : decide no_envelope no_decision (some overloaded) ≡ err (http_status 529)
unfolding decide
overloaded_lem = refl

abbrev pub to_string : List ActionWire → Option String
to_string l = some "[]"

abbrev pub context_json : DecisionContext → String
context_json ctx = "{}"

abbrev cfg : LoopConfig
cfg = record { max_attempts = 4; max_tip = 1000000; model = "m" }

abbrev spec : BundleSpec
spec = record {
  tip_lamports = 12000;
  memo_text = "m";
  priority_fee_microlamports = 0;
  priority_fee_cu_limit = 0;
  swap_tx_base64 = none;
  fault = none;
}

-- A greedy model and a block engine that cannot be reached.
abbrev pub rounds : ℕ → Round
rounds n = record {
  tips = record { p50 = some 9000; p75 = some 11000; trend = none; age_secs = some 3 };
  slot = 2000;
  clock = 2000 ∷ 2002 ∷ 2004 ∷ [];
  slot_after = 2004;
  decide = λ ctx. ok greedy;
  latency_ms = 700;
  submit_bundle = λ sent slot. refused (transport (codes "unreachable"));
}

abbrev why : Evidence
why = submit_rejection (codes "tip too low")

abbrev class : Classification
class = record { kind = fee_too_low; confidence = certain; rationale = [] }

abbrev run : LoopState × LoopEnd
run = agent_retry_loop deserialize to_string context_json cfg 1 1000 rounds class why spec [] start

agent_retry_loop-Spent_example :
    (run.1 ≢ out_of_fuel)
    × EndsUnlessStalled deserialize to_string context_json cfg 1 1000 rounds run.0 run.1
    × (length run.0.sent < max 1 cfg.max_attempts)
    × All (Affordable (max cfg.max_tip spec.tip_lamports) spec) run.0.sent
agent_retry_loop-Spent_example =
    agent_retry_loop-Spent deserialize to_string context_json cfg 1 1000 rounds class why spec []
      start

agent_retry_loop-Kept_example :
    ((added : List DecisionRecord) × (run.0.log ≡ [] ++ added)
      × (executed_attempts added ≡ count_up 2 (iterations run.1 (length run.0.sent))))
    × Tracked start (run.0, run.1)
agent_retry_loop-Kept_example =
    agent_retry_loop-Kept deserialize to_string context_json cfg 1 1000 rounds class why spec []
      start

abbrev outage_rounds : ℕ → Round
outage_rounds n = record (rounds n) { decide = λ ctx. err request_failed }

outage_rounds-Outage : Outage outage_rounds
unfolding wait_slots
outage_rounds-Outage = record {
  no_model = λ n ctx. (request_failed, refl);
  no_engine = λ n sent slot. (codes "unreachable", refl);
  hold_ends = λ n. refl;
}

abbrev unreachable : Classification
unreachable = record { kind = transport_error; confidence = certain; rationale = [] }

agent_retry_loop-Waited_example :
    let (s, end) =
      agent_retry_loop deserialize to_string context_json cfg 1 1000 outage_rounds unreachable why
        spec [] start in
    ((end ≡ abandoned) ⊎ ((end ≡ attempt_cap) × (cfg.max_attempts ≤ 3)))
    × All (λ sent. sent ≡ spec) s.sent
    × (length s.sent ≤ 2)
agent_retry_loop-Waited_example =
    agent_retry_loop-Waited deserialize to_string context_json cfg 1 1000 outage_rounds
      outage_rounds-Outage unreachable why spec [] start refl

abbrev snapshot : TipSnapshot
snapshot = record {
  taken_at = 0;
  p25_lamports = 1000;
  p50_lamports = 5000;
  p75_lamports = 12000;
  p95_lamports = 90000;
  p99_lamports = 400000;
  ema_p50_lamports = 6000;
}

abbrev earlier : TipSnapshot
earlier = record snapshot { taken_at = 100; p50_lamports = 4000 }

abbrev later : TipSnapshot
later = record snapshot { taken_at = 900; p50_lamports = 7000 }

abbrev feed : TipState
feed = record { history = snapshot ∷ earlier ∷ []; last_source = some web_socket }
