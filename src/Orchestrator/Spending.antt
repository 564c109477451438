-- ===== src/Orchestrator/Spending.antt =====
-- What the retry loop may spend and send, and that it ends.
use Prim.Native.Nat.{max}
use solana_smart_tx.Base.{
  ℕ, suc, ◌<◌, ◌≤◌, String, ◌≡◌, ◌≢◌, refl, ◌⊎◌, inl, inr, Option, none, some, List, arith,
}
use solana_smart_tx.Base.Lists.{length, All}
use solana_smart_tx.Failure.Types.{Classification, Evidence}
use solana_smart_tx.Failure.OnChain.{Deserialize}
use solana_smart_tx.Submitter.Types.{BundleSpec}
use solana_smart_tx.Lifecycle.Tracker.{Tracker}
use solana_smart_tx.Agent.Types.{ActionWire, DecisionContext}
use solana_smart_tx.Agent.Log.{DecisionRecord}
use solana_smart_tx.Agent.Guard.{clamp_actions}
use solana_smart_tx.Agent.Rules.{clamp_actions-Within}
use solana_smart_tx.Orchestrator.Plans.{OptionWithin, plan_actions-Within}
use solana_smart_tx.Orchestrator.Stalls.{StillBelow, wait_slots-StillBelow}
use solana_smart_tx.Orchestrator.Retry.{
  holding, LoopConfig, Round, LoopState, LoopEnd, out_of_fuel, context_of, decided, with_tip,
  plan_of, planned, turn, agent_retry_loop,
}
use solana_smart_tx.Orchestrator.Attempts.{Proceeds, turn_cases, retry_loop_ind}

abbrev untipped : BundleSpec → BundleSpec
untipped spec = record spec { tip_lamports = 0 }

-- A spec that differs from the first one in the tip at most, which is within the bound.
abbrev pub Affordable : ℕ → BundleSpec → BundleSpec → Type 0
Affordable bound first spec = (spec.tip_lamports ≤ bound) × (untipped spec ≡ untipped first)

module _ (deserialize : Deserialize) (to_string : List ActionWire → Option String)
    (context_json : DecisionContext → String) (cfg : LoopConfig)
    (bundle_db_id blockhash_fetched_at_slot : ℕ) where
  -- The state of a loop that is held: its last iteration waits for the slots of its plan, and the
  -- readings of the clock are still below the target.
  abbrev pub Stalled : (ℕ → Round) → LoopState → Type 0
  Stalled rounds s =
      (before : LoopState) × (s
        ≡ planned deserialize to_string context_json cfg bundle_db_id blockhash_fetched_at_slot
            before (rounds before.attempt))
      × StillBelow
          (plan_of deserialize to_string context_json cfg bundle_db_id blockhash_fetched_at_slot
            before (rounds before.attempt)).hold_slots
          (rounds before.attempt).clock

  abbrev pub EndsUnlessStalled : (ℕ → Round) → LoopState → LoopEnd → Type 0
  EndsUnlessStalled rounds s end = (end ≢ holding) ⊎ Stalled rounds s

  plan_of-Within :
      (s : LoopState) (round : Round)
      → OptionWithin cfg.max_tip
          (plan_of deserialize to_string context_json cfg bundle_db_id blockhash_fetched_at_slot s
            round).tip
  unfolding plan_of
  plan_of-Within s round =
      let ctx : DecisionContext =
        context_of deserialize to_string context_json cfg bundle_db_id blockhash_fetched_at_slot s
          round in
      let d =
        (decided deserialize to_string context_json cfg bundle_db_id blockhash_fetched_at_slot ctx
          round.latency_ms (round.decide ctx)).0 in
      plan_actions-Within cfg.max_tip (clamp_actions d cfg.max_tip).0.actions
        (clamp_actions-Within d cfg.max_tip).0

  with_tip-Affordable :
      (o : Option ℕ) (first spec : BundleSpec)
      → OptionWithin cfg.max_tip o
      → Affordable (max cfg.max_tip first.tip_lamports) first spec
      → Affordable (max cfg.max_tip first.tip_lamports) first (with_tip o spec)
  with_tip-Affordable none first spec w a = a
  with_tip-Affordable (some tip) first spec w (le, same) = (omega arith, same)

  -- What holds between two iterations.
  record Spends (first : BundleSpec) (s : LoopState) : Type 0 where
    spec : Affordable (max cfg.max_tip first.tip_lamports) first s.spec
    sent : All (Affordable (max cfg.max_tip first.tip_lamports) first) s.sent
    count : s.attempt ≡ suc (length s.sent)
    cap : s.attempt ≤ max 1 cfg.max_attempts

  -- At the end.
  abbrev Spent : BundleSpec → (ℕ → Round) → LoopState × LoopEnd → Type 0
  Spent first rounds (s, end) =
      (end ≢ out_of_fuel)
      × EndsUnlessStalled rounds s end
      × (length s.sent < max 1 cfg.max_attempts)
      × All (Affordable (max cfg.max_tip first.tip_lamports) first) s.sent

  turn-Spends :
      (first : BundleSpec) (rounds : ℕ → Round) (s : LoopState)
      → s.attempt < cfg.max_attempts
      → Spends first s
      → Proceeds deserialize to_string context_json cfg bundle_db_id blockhash_fetched_at_slot
          (Spends first)
          (Spent first rounds)
          s.attempt
          (turn deserialize to_string context_json cfg bundle_db_id blockhash_fetched_at_slot s
            (rounds s.attempt))
  turn-Spends first rounds s more p =
      turn_cases deserialize to_string context_json cfg bundle_db_id blockhash_fetched_at_slot
        (Proceeds deserialize to_string context_json cfg bundle_db_id blockhash_fetched_at_slot
          (Spends first) (Spent first rounds) s.attempt)
        s (rounds s.attempt)
        (λ stalled. (
          (λ e. cc),
          inr (s, refl, wait_slots-StillBelow _ (rounds s.attempt).clock stalled),
          ground (arith, p.count),
          p.sent,
        ))
        ((λ e. cc), inl (λ e. cc), ground (arith, p.count), p.sent)
        ((λ e. cc), inl (λ e. cc), ground (arith, p.count), (spec', p.sent))
        (λ r tracker row e. ((λ e. cc), inl (λ e. cc), ground (arith, p.count), (spec', p.sent)))
        λ e. (
          record {
            spec = spec';
            sent = (spec', p.sent);
            count = ground (arith, p.count);
            cap = ground arith;
          },
          refl,
        )
    where
      spec' :
          Affordable
            (max cfg.max_tip first.tip_lamports)
            first
            (planned deserialize to_string context_json cfg bundle_db_id blockhash_fetched_at_slot s
              (rounds s.attempt)).spec
      spec' =
          with_tip-Affordable
            (plan_of deserialize to_string context_json cfg bundle_db_id blockhash_fetched_at_slot s
              (rounds s.attempt)).tip
            first s.spec (plan_of-Within s (rounds s.attempt)) p.spec

  -- The retry loop never makes more iterations than its attempts allow, whatever the model, the tips,
  -- the clock and the submitter do: it comes to its end, or is held in an iteration by the wait for
  -- the slots of its plan, in which no reading of the clock has reached the target. It hands less than
  -- `max_attempts` bundles to the submitter (none if that is 0 or 1), and each of them is the failed
  -- bundle with a tip of at most the cap or the tip that it had.
  pub agent_retry_loop-Spent :
      (rounds : ℕ → Round) (classification : Classification) (evidence : Evidence)
      (spec : BundleSpec) (log : List DecisionRecord) (tracker : Tracker)
      → let (s, end) =
          agent_retry_loop deserialize to_string context_json cfg bundle_db_id
            blockhash_fetched_at_slot rounds classification evidence spec log tracker in
        (end ≢ out_of_fuel)
        × EndsUnlessStalled rounds s end
        × (length s.sent < max 1 cfg.max_attempts)
        × All (Affordable (max cfg.max_tip spec.tip_lamports) spec) s.sent
  unfolding agent_retry_loop
  agent_retry_loop-Spent rounds classification evidence spec log tracker =
      retry_loop_ind deserialize to_string context_json cfg bundle_db_id blockhash_fetched_at_slot
        (Spends spec) (Spent spec rounds) rounds (λ s more p. turn-Spends spec rounds s more p)
        (λ s full p. ((λ e. cc), inl (λ e. cc), ground (arith, p.count, p.cap), p.sent))
        (suc cfg.max_attempts) _ (ground arith)
        (record { spec = (ground arith, refl); sent = tt; count = refl; cap = ground arith })
