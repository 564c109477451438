-- ===== src/Orchestrator/Sent.antt =====
-- The bundle that `submit_one` sends: its tip, its fee and its payload.
use solana_smart_tx.Base.{
  ℕ, ◌-◌, ◌≤◌, ◌≡◌, refl, String, Bool, true, false, ◌&&◌, ◌⊎◌, inl, inr, Option, none, some, arith,
}
use solana_smart_tx.Base.Tests.{nat_eq, string_eq, leb, if◌then◌else◌, Bool-cases}
use solana_smart_tx.Base.Text.{Text}
use solana_smart_tx.Base.Result.{Result, err, ok}
use solana_smart_tx.Leader.Types.{LeaderWindow}
use solana_smart_tx.Submitter.Types.{BundleSpec}
use solana_smart_tx.Orchestrator.Policy.{PayloadKind, memo, swap}
use solana_smart_tx.Orchestrator.Tips.{normal_tip_policy-Priced}
use solana_smart_tx.Orchestrator.Payload.{
  swap_prefetch_max_age_slots, PreFetchedSwap, SubmissionConfig, Moment, policy_at, priced,
  fresh_swap, use_swap, payload_for,
}

-- Where a swap payload comes from.
abbrev pub SwapFrom : (slot : ℕ) → Option PreFetchedSwap → Result String → String → Type 0
SwapFrom slot staged fetched tx =
    ((pf : PreFetchedSwap) × (staged ≡ some pf)
      × (pf.swap_tx_base64 ≡ tx)
      × (slot - pf.fetched_at_slot ≤ swap_prefetch_max_age_slots))
    ⊎ (fetched ≡ ok tx)

abbrev pub PayloadIs :
    PayloadKind
    → (slot : ℕ) → Option PreFetchedSwap
    → Result String
    → (spec sent : BundleSpec) → Type 0
PayloadIs memo slot staged fetched spec sent = sent.swap_tx_base64 ≡ spec.swap_tx_base64
PayloadIs swap slot staged fetched spec sent =
    (tx : String) × (sent.swap_tx_base64 ≡ some tx) × SwapFrom slot staged fetched tx

-- The spec that is sent, against the one that was asked for.
pub record Sends (cfg : SubmissionConfig) (m : Moment) (w : LeaderWindow)
    (staged : Option PreFetchedSwap) (spec sent : BundleSpec) : Type 0 where
  pub tip : sent.tip_lamports ≡ (policy_at cfg m).tip
  pub affordable : sent.tip_lamports ≤ cfg.max_tip_lamports
  pub fee :
      ((w.is_bam ≡ true) × (cfg.bam_priority_fee_enabled ≡ true))
      ⊎ ((sent.priority_fee_microlamports ≡ 0) × (sent.priority_fee_cu_limit ≡ 0))
  pub payload : PayloadIs cfg.payload w.current_slot staged m.swap_payload spec sent
  pub memo_text : sent.memo_text ≡ spec.memo_text
  pub fault : sent.fault ≡ spec.fault

policy-le : (cfg : SubmissionConfig) (m : Moment) → (policy_at cfg m).tip ≤ cfg.max_tip_lamports
policy-le cfg m =
    (normal_tip_policy-Priced m.latest m.is_stale cfg.tip_percentile cfg.max_tip_lamports).0

-- A swap payload, or none: then the window is skipped.
abbrev pub PayloadFor :
    SubmissionConfig
    → Moment
    → LeaderWindow
    → Option PreFetchedSwap
    → BundleSpec
    → Option BundleSpec
    → Type 0
PayloadFor cfg m w staged spec none = (e : Text) × (m.swap_payload ≡ err e)
PayloadFor cfg m w staged spec (some sent) = Sends cfg m w staged spec sent

fee_lem :
    (is_bam enabled : Bool) (price limit : ℕ)
    → ((is_bam ≡ true) × (enabled ≡ true))
      ⊎ (((if is_bam && enabled then price else 0) ≡ 0)
          × ((if is_bam && enabled then limit else 0) ≡ 0))
fee_lem true true price limit = inl (refl, refl)
fee_lem true false price limit = inr (refl, refl)
fee_lem false enabled price limit = inr (refl, refl)

module _ (cfg : SubmissionConfig) (m : Moment) (w : LeaderWindow) (spec : BundleSpec) where
  abbrev with_payload : Option String → BundleSpec
  with_payload tx = record (priced cfg m w.is_bam spec) { swap_tx_base64 = tx }

  Sends-priced :
      (staged : Option PreFetchedSwap) (tx : Option String)
      → PayloadIs cfg.payload w.current_slot staged m.swap_payload spec (with_payload tx)
      → Sends cfg m w staged spec (with_payload tx)
  Sends-priced staged tx p = record {
    tip = refl;
    affordable = policy-le cfg m;
    fee =
        fee_lem w.is_bam cfg.bam_priority_fee_enabled cfg.bam_priority_fee_microlamports
          cfg.bam_priority_fee_cu_limit;
    payload = p;
    memo_text = refl;
    fault = refl;
  }

  -- A staged swap that is used is young.
  abbrev Young : Option PreFetchedSwap → Option String → Type 0
  Young staged none = Unit
  Young staged (some tx) =
      (pf : PreFetchedSwap) × (staged ≡ some pf)
      × (pf.swap_tx_base64 ≡ tx)
      × (w.current_slot - pf.fetched_at_slot ≤ swap_prefetch_max_age_slots)

  fresh_swap-Young :
      (staged : Option PreFetchedSwap) → Young staged (fresh_swap w.current_slot staged)
  unfolding fresh_swap
  fresh_swap-Young none = tt
  fresh_swap-Young (some pf) =
      elim (Bool-cases (leb (w.current_slot - pf.fetched_at_slot) swap_prefetch_max_age_slots)) [
        | inl e ↦ rw e (pf, refl, refl, ground arith)
        | inr e ↦ rw e tt
      ]

  use_swap-PayloadFor :
      (staged : Option PreFetchedSwap) (o : Option String) (fetched : Result String)
      → cfg.payload ≡ swap
      → m.swap_payload ≡ fetched
      → Young staged o
      → PayloadFor cfg m w staged spec (use_swap o fetched (priced cfg m w.is_bam spec))
  use_swap-PayloadFor staged (some tx) fetched k e y =
      Sends-priced staged (some tx) (in_swap (inl y))
    where
      in_swap :
          SwapFrom w.current_slot staged m.swap_payload tx
          → PayloadIs cfg.payload w.current_slot staged m.swap_payload spec (with_payload (some tx))
      in_swap from = simp (k) (tx, refl, from)
  use_swap-PayloadFor staged none (ok tx) k e y = Sends-priced staged (some tx) (in_swap (inr e))
    where
      in_swap :
          SwapFrom w.current_slot staged m.swap_payload tx
          → PayloadIs cfg.payload w.current_slot staged m.swap_payload spec (with_payload (some tx))
      in_swap from = simp (k) (tx, refl, from)
  use_swap-PayloadFor staged none (err x) k e y = (x, e)

  pub payload_for-PayloadFor :
      (staged : Option PreFetchedSwap) (payload : PayloadKind)
      → cfg.payload ≡ payload
      → PayloadFor cfg m w staged spec
          (payload_for payload w.current_slot staged m.swap_payload (priced cfg m w.is_bam spec))
  unfolding payload_for
  payload_for-PayloadFor staged memo k = Sends-priced staged spec.swap_tx_base64 in_memo
    where
      in_memo :
          PayloadIs cfg.payload w.current_slot staged m.swap_payload spec
            (with_payload spec.swap_tx_base64)
      in_memo = simp (k) refl
  payload_for-PayloadFor staged swap k =
      use_swap-PayloadFor staged (fresh_swap w.current_slot staged) m.swap_payload k refl
        (fresh_swap-Young staged)
