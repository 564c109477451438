-- ===== src/Submitter/DryRun.antt =====
-- What a dry run of a swap bundle does and reports.
use solana_smart_tx.Base.{
  ℕ, ◌≡◌, String, Bool, true, false, not, inl, inr, Option, none, some, List, [], ◌∷◌,
}
use solana_smart_tx.Base.Tests.{string_eq, ◌==◌, leb}
use solana_smart_tx.Base.Lists.{All}
use solana_smart_tx.Base.Text.{Text}
use solana_smart_tx.Base.Result.{Result, ok}
use solana_smart_tx.Base.Json.{Serde}
use solana_smart_tx.Submitter.Sdk.{Sdk}
use solana_smart_tx.Submitter.Build.{build_tip_tx, sign_swap_transaction}
use solana_smart_tx.Submitter.Decode.{jito_min_tip_lamports, bundle_has_valid_tip}
use solana_smart_tx.Submitter.Submit.{
  Call, latest_blockhash, random_tip_account, send_bundle, simulate_transaction, Run, Gateway,
  SubmitterConfig, CachedBlockhash,
}
use solana_smart_tx.Submitter.Preparation.{hash_of}
use solana_smart_tx.Submitter.Simulate.{SimulationResult, SwapDryRun, Messages}

-- A call that sends nothing.
abbrev pub Harmless : Call → Type 0
Harmless (latest_blockhash finalized) = Unit {0}
Harmless random_tip_account = Unit {0}
Harmless (send_bundle txs) = ⊥
Harmless (simulate_transaction tx) = Unit {0}

-- A run that sends nothing, and whose result, if it has one, satisfies `P`.
abbrev pub Ends : {A : Type 0} → (A → Type 0) → Run A → Type 0
Ends P (calls, inl e) = All Harmless calls
Ends P (calls, inr a) = All Harmless calls × P a

module _ (sdk : Sdk) (simulate : String → Result SimulationResult) (serde : Serde)
    (utf8 : String → List ℕ) (show : ℕ → String) (cfg : SubmitterConfig) (msg : Messages)
    (g : Gateway) where
  -- The simulation that a report has.
  abbrev Rehearsed : Bool → String → Option SimulationResult → Type 0
  Rehearsed false tx s = s ≡ none
  Rehearsed true tx s = (r : SimulationResult) × (simulate tx ≡ ok r) × (s ≡ some r)

  -- What a report tells of the two transactions.
  pub record Reports (cache : Option CachedBlockhash) (swap : String) (tip : ℕ) (simulation : Bool)
      (d : SwapDryRun) : Type 0 where
    pub key : String
    pub swap_is :
        sign_swap_transaction sdk swap
        ≡ ok (record { base64 = d.tx0_base64; signature = d.tx0_signature })
    pub blockhash : hash_of g cache false ≡ ok d.tip_blockhash
    pub account : sdk.pubkey_from_str d.tip_account ≡ ok key
    pub tip_is :
        build_tip_tx sdk tip key d.tip_blockhash
        ≡ ok (record { base64 = d.tip_base64; signature = d.tip_signature })
    pub amount : d.tip_lamports ≡ tip
    pub differ : d.blockhashes_differ ≡ not (d.tx0_blockhash == d.tip_blockhash)
    pub valid :
        bundle_has_valid_tip sdk (d.tx0_base64 ∷ d.tip_base64 ∷ []) key tip sdk.payer
        ≡ leb jito_min_tip_lamports tip
    pub rehearsed : Rehearsed simulation d.tx0_base64 d.tx0_simulation
