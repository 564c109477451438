-- ===== src/Submitter/Rehearsed.antt =====
-- `simulate_bundle` against `submit`: what is simulated is what would be sent.
use Prim.Native.String.{◌++◌ as append}
use solana_smart_tx.Base.{ℕ, ◌≡◌, refl, ap, String, ◌⊎◌, inl, inr, Option, List, [], ◌∷◌, ◌++◌}
use solana_smart_tx.Base.Int.{ℤ}
use solana_smart_tx.Base.Text.{Text}
use solana_smart_tx.Base.Result.{Result, err, ok, Result-cases}
use solana_smart_tx.Base.Json.{Serde}
use solana_smart_tx.Submitter.Types.{BundleRecord, SubmitError, BundleSpec}
use solana_smart_tx.Submitter.Sdk.{Sdk}
use solana_smart_tx.Submitter.Submit.{
  Call, send_bundle, simulate_transaction, Run, ◌>>=◌, transport_of, Gateway, SubmitterConfig,
  CachedBlockhash, Prepared, parse_send_response, prepare, record_of, bundle_of, send, submit,
}
use solana_smart_tx.Submitter.Simulate.{
  SimulationResult, BundleSimulation, payload_label, simulate_both, simulate_bundle,
}

-- The report on a prepared bundle, from the simulations of its two transactions.
abbrev pub report_of :
    BundleSpec → Prepared → SimulationResult → SimulationResult → BundleSimulation
report_of spec p first second = record {
  blockhash = p.blockhash;
  tip_account = p.tip_account;
  tip_lamports = p.tip_lamports;
  transactions =
      record {
        label = payload_label spec.swap_tx_base64;
        signature = p.tx0.signature;
        result = first;
      }
      ∷ record { label = "tip-transfer"; signature = p.tx1.signature; result = second }
      ∷ [];
}

module _ (simulate : String → Result SimulationResult) where
  -- The simulations stop at the first that cannot be made.
  abbrev Simulates : BundleSpec → List Call → Prepared → Run BundleSimulation → Type 0
  Simulates spec before p run =
      ((e : Text) × (simulate p.tx0.base64 ≡ err e)
        × (run ≡ (
          before ++ simulate_transaction p.tx0.base64 ∷ [],
          inl (transport_of (append "simulate " (payload_label spec.swap_tx_base64)) e),
        )))
      ⊎ ((first : SimulationResult) × (e : Text) × (simulate p.tx0.base64 ≡ ok first)
          × (simulate p.tx1.base64 ≡ err e)
          × (run ≡ (
            before ++ simulate_transaction p.tx0.base64 ∷ simulate_transaction p.tx1.base64 ∷ [],
            inl (transport_of (append "simulate " "tip-transfer") e),
          )))
      ⊎ ((first : SimulationResult) × (second : SimulationResult) × (simulate p.tx0.base64
            ≡ ok first)
          × (simulate p.tx1.base64 ≡ ok second)
          × (run ≡ (
            before ++ simulate_transaction p.tx0.base64 ∷ simulate_transaction p.tx1.base64 ∷ [],
            inr (report_of spec p first second),
          )))

  -- What a submission records of the bundle.
  abbrev RecordsOf : Prepared → SubmitError ⊎ BundleRecord → Type 0
  RecordsOf p (inl e) = Unit {0}
  RecordsOf p (inr r) =
      (r.blockhash ≡ p.blockhash)
      × (r.tip_account ≡ p.tip_account)
      × (r.tip_lamports ≡ p.tip_lamports)
      × (r.memo_signature ≡ p.tx0.signature)
      × (r.tip_signature ≡ p.tx1.signature)

  -- Both fail alike before anything is sent or simulated, or both have the same bundle.
  abbrev pub Rehearses : BundleSpec → Run BundleRecord → Run BundleSimulation → Type 0
  Rehearses spec sent rehearsed =
      ((calls : List Call) × (e : SubmitError) × (sent ≡ (calls, inl e))
        × (rehearsed ≡ (calls, inl e)))
      ⊎ ((before : List Call) × (p : Prepared) × (sent.0
            ≡ before ++ send_bundle (p.tx0.base64 ∷ p.tx1.base64 ∷ []) ∷ [])
          × RecordsOf p sent.1
          × Simulates spec before p rehearsed)

  module _ (sdk : Sdk) (serde : Serde) (utf8 : String → List ℕ) (show : ℕ → String)
      (cfg : SubmitterConfig) (g : Gateway) (spec : BundleSpec) where
    response_lem :
        (slot : ℕ) (at : ℤ) (p : Prepared) (parsed : SubmitError ⊎ String)
        → let r =
            ([], parsed) >>= λ id. ([], inr (record_of sdk serde utf8 show cfg p slot at id)) in
          (r.0 ≡ []) × RecordsOf p r.1
    response_lem slot at p (inl e) = (refl, tt)
    response_lem slot at p (inr id) = (refl, (refl, refl, refl, refl, refl))

    send_lem :
        (slot : ℕ) (at : ℤ) (p : Prepared)
        → let r = send sdk serde utf8 show cfg g slot at p in
          (r.0 ≡ send_bundle (p.tx0.base64 ∷ p.tx1.base64 ∷ []) ∷ []) × RecordsOf p r.1
    send_lem slot at p = elim (Result-cases (g.send_bundle (bundle_of sdk serde utf8 show cfg p))) [
      | inl (e, h) ↦ rw h (refl, tt)
      | inr (v, h) ↦ rw h (
          let (calls, records) = response_lem slot at p (parse_send_response serde v) in
          (ap (λ c. send_bundle (p.tx0.base64 ∷ p.tx1.base64 ∷ []) ∷ c) calls, records))
    ]

    simulate_lem :
        (before : List Call) (p : Prepared)
        → Simulates spec before p ((before, inr p) >>= simulate_both sdk simulate spec)
    simulate_lem before p = elim (Result-cases (simulate p.tx0.base64)) [
      | inl (e, h) ↦ inl (e, h, rw h refl)
      | inr (first, h) ↦ elim (Result-cases (simulate p.tx1.base64)) [
        | inl (e, k) ↦ inr (inl (first, e, h, k, rw h (rw k refl)))
        | inr (second, k) ↦ inr (inr (first, second, h, k, rw h (rw k refl)))
      ]
    ]

    run_lem :
        (slot : ℕ) (at : ℤ) (run : Run Prepared)
        → Rehearses spec
            (run >>= send sdk serde utf8 show cfg g slot at)
            (run >>= simulate_both sdk simulate spec)
    run_lem slot at (calls, inl e) = inl (calls, e, refl, refl)
    run_lem slot at (calls, inr p) =
        let (sent, records) = send_lem slot at p in
        inr (calls, p, ap (λ c. calls ++ c) sent, records, simulate_lem calls p)

    -- `simulate_bundle` rehearses `submit`, given the same replies. If no bundle can be prepared, both
    -- fail with the same error after the same calls. Else both have the same calls first; then the one
    -- sends the payload and the tip's transaction, and the other simulates these very bytes one after
    -- the other, up to the first that cannot be simulated, and sends nothing. The report has the
    -- blockhash, the tip, its account and the signatures of the record that a submission makes.
    pub simulate_bundle-Rehearses :
        (cache : Option CachedBlockhash) (slot : ℕ) (at : ℤ)
        → Rehearses spec
            (submit sdk serde utf8 show cfg g cache spec slot at)
            (simulate_bundle sdk simulate serde utf8 show cfg g cache spec)
    unfolding submit simulate_bundle
    simulate_bundle-Rehearses cache slot at =
        run_lem slot at (prepare sdk serde utf8 show cfg g cache spec)
