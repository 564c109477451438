-- ===== src/Submitter/Submitted.antt =====
-- What `submit` did, told from its calls and its result.
use solana_smart_tx.Base.{ℕ, ◌≡◌, ◌⊎◌, inl, inr, String, Option, none, some, List, [], ◌∷◌, ◌++◌}
use solana_smart_tx.Base.Tests.{leb}
use solana_smart_tx.Base.Text.{Text}
use solana_smart_tx.Base.Result.{err, ok}
use solana_smart_tx.Base.Json.{Value, Serde, member, as_str, and_then}
use solana_smart_tx.Submitter.Types.{
  BundleRecord, SubmitError, rejected, transport, bad_response, BundleSpec,
}
use solana_smart_tx.Submitter.Sdk.{Sdk}
use solana_smart_tx.Submitter.Build.{Built, build_tip_tx}
use solana_smart_tx.Submitter.Decode.{jito_min_tip_lamports, bundle_has_valid_tip}
use solana_smart_tx.Submitter.Submit.{
  Call, send_bundle, Run, Gateway, SubmitterConfig, CachedBlockhash, faulty_tip, wants_finalized,
  fault_label, payload_of,
}
use solana_smart_tx.Submitter.Preparation.{hash_calls, first_calls, hash}

module _ (sdk : Sdk) (serde : Serde) (utf8 : String → List ℕ) (show : ℕ → String)
    (cfg : SubmitterConfig) (g : Gateway) (cache : Option CachedBlockhash) (spec : BundleSpec) where
  -- Which reply of the gateway a transport error tells of, by the calls that were made.
  abbrev TransportFailed : List Call → Type 0
  TransportFailed calls =
      ((e : Text) × (hash g cache spec ≡ err e)
        × (calls ≡ hash_calls cache (wants_finalized spec.fault)))
      ⊎ ((e : Text) × (g.random_tip_account ≡ err e) × (calls ≡ first_calls cache spec))
      ⊎ ((txs : List String) × (e : Text) × (g.send_bundle txs ≡ err e)
          × (calls ≡ first_calls cache spec ++ send_bundle txs ∷ []))

  -- A bundle was sent, and this was the response.
  abbrev SentWith : List Call → (Value → Type 0) → Type 0
  SentWith calls Q =
      (txs : List String) × (v : Value) × (calls ≡ first_calls cache spec ++ send_bundle txs ∷ [])
      × (g.send_bundle txs ≡ ok v)
      × Q v

  abbrev id_in : Value → Option String
  id_in v = and_then (member "result" v) as_str

  -- What an accepted bundle's record tells of the bundle.
  pub record Accepted (current_slot : ℕ) (calls : List Call) (r : BundleRecord) : Type 0 where
    pub txs : List String
    pub response : Value
    pub key : String
    pub payload : Built
    pub tip_tx : Built
    pub txs_are : txs ≡ payload.base64 ∷ tip_tx.base64 ∷ []
    pub payload_is :
        payload_of sdk serde utf8 show cfg spec r.blockhash spec.swap_tx_base64 ≡ ([], inr payload)
    pub tip_tx_is : build_tip_tx sdk r.tip_lamports key r.blockhash ≡ ok tip_tx
    pub tracked : r.memo_signature ≡ payload.signature
    pub tip_signature : r.tip_signature ≡ tip_tx.signature
    pub calls_are : calls ≡ first_calls cache spec ++ send_bundle txs ∷ []
    pub replied : g.send_bundle txs ≡ ok response
    pub no_error : member "error" response ≡ none
    pub id : id_in response ≡ some r.bundle_id
    pub tip : r.tip_lamports ≡ faulty_tip spec.fault spec.tip_lamports
    pub account : sdk.pubkey_from_str r.tip_account ≡ ok key
    pub valid :
        bundle_has_valid_tip sdk txs key r.tip_lamports sdk.payer
        ≡ leb jito_min_tip_lamports r.tip_lamports
    pub blockhash : hash g cache spec ≡ ok r.blockhash
    pub slot : r.blockhash_fetched_at_slot ≡ current_slot
    pub fault : r.fault_injected ≡ fault_label show spec.fault

  abbrev pub Explains : (current_slot : ℕ) → Run BundleRecord → Type 0
  Explains slot (calls, inr r) = Accepted slot calls r
  Explains slot (calls, inl (rejected reason)) =
      SentWith calls (λ v. (e : Value) × (member "error" v ≡ some e))
  Explains slot (calls, inl (transport m)) = TransportFailed calls
  Explains slot (calls, inl (bad_response m)) =
      (calls ≡ first_calls cache spec)
      ⊎ SentWith calls (λ v. (member "error" v ≡ none) × (id_in v ≡ none))

  data ParsedAs (v : Value) : SubmitError ⊎ String → Type 0 where
    an_error :
        (e : Value) (reason : Text) → member "error" v ≡ some e → ParsedAs v (inl (rejected reason))
    no_id :
        (m : Text) → member "error" v ≡ none → id_in v ≡ none → ParsedAs v (inl (bad_response m))
    an_id : (id : String) → member "error" v ≡ none → id_in v ≡ some id → ParsedAs v (inr id)
