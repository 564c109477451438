-- ===== src/Orchestrator/Decisions.antt =====
-- What the retry loop leaves in the decision log and in the tracker.
use mathlib.Core.List.{append_assoc, append-nil}
use solana_smart_tx.Base.{
  ℕ, zero, suc, ◌+◌, String, ◌≡◌, refl, sym, ap, ◌∙◌, Option, some, List, [], ◌∷◌, ◌++◌, arith,
}
use solana_smart_tx.Base.Tests.{if◌then◌else◌}
use solana_smart_tx.Base.Lists.{length}
use solana_smart_tx.Failure.Types.{Classification, Evidence}
use solana_smart_tx.Failure.OnChain.{Deserialize}
use solana_smart_tx.Submitter.Types.{BundleRecord, BundleSpec}
use solana_smart_tx.Lifecycle.Tracker.{Tracker, record_submission}
use solana_smart_tx.Agent.Types.{ActionWire, Decision, DecisionContext}
use solana_smart_tx.Agent.Reply.{Outcome, err, ok}
use solana_smart_tx.Agent.Log.{DecisionRecord, decision_record, record_decision}
use solana_smart_tx.Orchestrator.Retry.{
  LoopConfig, Round, LoopState, LoopEnd, abandoned, holding, resubmitted, context_of, decided,
  shadow, log_of, turn, agent_retry_loop,
}
use solana_smart_tx.Orchestrator.Attempts.{Proceeds, turn_cases, retry_loop_ind}

-- The attempts of the rows that were executed, in the order of the rows.
abbrev pub executed_attempts : List DecisionRecord → List ℕ
executed_attempts [] = []
executed_attempts (r ∷ l) =
    let rest = executed_attempts l in if r.executed then r.attempt ∷ rest else rest

-- The numbers from `a`, `n` of them.
abbrev pub count_up : ℕ → ℕ → List ℕ
count_up a zero = []
count_up a (suc n) = a ∷ count_up (suc a) n

executed_attempts-append :
    (xs ys : List DecisionRecord)
    → executed_attempts (xs ++ ys) ≡ executed_attempts xs ++ executed_attempts ys
executed_attempts-append [] ys = refl
executed_attempts-append (x ∷ xs) ys = ground (arith, executed_attempts-append xs ys)

count_up-append : (a n : ℕ) → count_up a n ++ (a + n) ∷ [] ≡ count_up a (suc n)
count_up-append a zero = ground arith
count_up-append a (suc n) = ground (arith, count_up-append (suc a) n)

-- The loop's part of the log: it starts with the old log, and its executed rows are those of the
-- attempts from 2 on, one for each of `n` iterations.
record Logs (before : List DecisionRecord) (n : ℕ) (log : List DecisionRecord) : Type 0 where
  added : List DecisionRecord
  extends : log ≡ before ++ added
  executed : executed_attempts added ≡ count_up 2 n

-- The iterations of a loop that has sent `n` bundles: an abandoned bundle is not sent again,
-- nor is one that is held.
abbrev pub iterations : LoopEnd → ℕ → ℕ
iterations abandoned n = suc n
iterations holding n = suc n
iterations other n = n

-- What the end says of the tracker.
abbrev pub Tracked : Tracker → LoopState × LoopEnd → Type 0
Tracked tracker (s, resubmitted row) =
    (r : BundleRecord) × (p50 : Option ℕ) × (p75 : Option ℕ) × (record_submission tracker r p50 p75
      ≡ some (s.tracker, row))
Tracked tracker (s, other) = s.tracker ≡ tracker

module _ (deserialize : Deserialize) (to_string : List ActionWire → Option String)
    (context_json : DecisionContext → String) (cfg : LoopConfig)
    (bundle_db_id blockhash_fetched_at_slot : ℕ) where
  -- The rows that one iteration adds.
  shadow-append :
      (ctx : DecisionContext) (latency_ms : ℕ) (reply : Outcome Decision)
      (log : List DecisionRecord)
      → (rows : List DecisionRecord) × (shadow deserialize to_string context_json cfg bundle_db_id
            blockhash_fetched_at_slot ctx reply
            (record_decision
              (decided deserialize to_string context_json cfg bundle_db_id blockhash_fetched_at_slot
                ctx latency_ms reply).1
              log)
          ≡ log ++ rows)
        × (executed_attempts rows ≡ ctx.attempt ∷ [])
  unfolding shadow decided record_decision decision_record
  shadow-append ctx latency_ms (ok d) log = (_, append_assoc log (_ ∷ []) (_ ∷ []), refl)
  shadow-append ctx latency_ms (err e) log = (_, refl, refl)

  log_of-Logs :
      (before : List DecisionRecord) (n : ℕ) (s : LoopState) (round : Round)
      → s.attempt ≡ suc n
      → Logs before n s.log
      → Logs before (suc n) (
          log_of deserialize to_string context_json cfg bundle_db_id blockhash_fetched_at_slot s
            round)
  unfolding log_of
  log_of-Logs before n s round e p =
      let ctx : DecisionContext =
        context_of deserialize to_string context_json cfg bundle_db_id blockhash_fetched_at_slot s
          round in
      let (rows, at, number) = shadow-append ctx round.latency_ms (round.decide ctx) s.log in
      record {
        added = p.added ++ rows;
        extends = at ∙ ap (λ l. l ++ rows) p.extends ∙ append_assoc before p.added rows;
        executed = ground (
          arith,
          executed_attempts-append p.added rows,
          p.executed,
          number,
          e,
          count_up-append 2 n,
        );
      }

  record Keeps (before : List DecisionRecord) (tracker : Tracker) (s : LoopState) : Type 0 where
    logs : Logs before (length s.sent) s.log
    count : s.attempt ≡ suc (length s.sent)
    same : s.tracker ≡ tracker

  abbrev Kept : List DecisionRecord → Tracker → LoopState × LoopEnd → Type 0
  Kept before tracker (s, end) =
      ((added : List DecisionRecord) × (s.log ≡ before ++ added)
        × (executed_attempts added ≡ count_up 2 (iterations end (length s.sent))))
      × Tracked tracker (s, end)

  turn-Keeps :
      (before : List DecisionRecord) (tracker : Tracker) (s : LoopState) (round : Round)
      → Keeps before tracker s
      → Proceeds deserialize to_string context_json cfg bundle_db_id blockhash_fetched_at_slot
          (Keeps before tracker)
          (Kept before tracker)
          s.attempt
          (turn deserialize to_string context_json cfg bundle_db_id blockhash_fetched_at_slot s
            round)
  turn-Keeps before tracker s round p =
      turn_cases deserialize to_string context_json cfg bundle_db_id blockhash_fetched_at_slot
        (Proceeds deserialize to_string context_json cfg bundle_db_id blockhash_fetched_at_slot
          (Keeps before tracker) (Kept before tracker) s.attempt)
        s round (λ e. (added, p.same)) (added, p.same) (added, p.same)
        (λ r tracker' row e. (added, (r, round.tips.p50, round.tips.p75, rw (← p.same) e)))
        λ e. (record { logs = more; count = ap suc p.count; same = p.same }, refl)
    where
      more : Logs before (suc (length s.sent)) (
          log_of deserialize to_string context_json cfg bundle_db_id blockhash_fetched_at_slot s
            round)
      more = log_of-Logs before (length s.sent) s round p.count p.logs

      added :
          (added : List DecisionRecord) × (log_of deserialize to_string context_json cfg
              bundle_db_id blockhash_fetched_at_slot s round
            ≡ before ++ added)
          × (executed_attempts added ≡ count_up 2 (suc (length s.sent)))
      added = (more.added, more.extends, more.executed)

  -- The retry loop only adds to the decision log, and its executed rows are numbered 2, 3, … without
  -- a gap or a repetition, one for each iteration; the shadow rows are not among them. The tracker
  -- changes only at an end `resubmitted`, and then by one recorded submission.
  pub agent_retry_loop-Kept :
      (rounds : ℕ → Round) (classification : Classification) (evidence : Evidence)
      (spec : BundleSpec) (log : List DecisionRecord) (tracker : Tracker)
      → let (s, end) =
          agent_retry_loop deserialize to_string context_json cfg bundle_db_id
            blockhash_fetched_at_slot rounds classification evidence spec log tracker in
        ((added : List DecisionRecord) × (s.log ≡ log ++ added)
          × (executed_attempts added ≡ count_up 2 (iterations end (length s.sent))))
        × Tracked tracker (s, end)
  unfolding agent_retry_loop
  agent_retry_loop-Kept rounds classification evidence spec log tracker =
      retry_loop_ind deserialize to_string context_json cfg bundle_db_id blockhash_fetched_at_slot
        (Keeps log tracker) (Kept log tracker) rounds
        (λ s more p. turn-Keeps log tracker s (rounds s.attempt) p)
        (λ s full p. ((p.logs.added, p.logs.extends, p.logs.executed), p.same))
        (suc cfg.max_attempts) _ (ground arith)
        (record {
          logs = record { added = []; extends = sym (append-nil log); executed = refl };
          count = refl;
          same = refl;
        })
