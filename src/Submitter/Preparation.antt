-- ===== src/Submitter/Preparation.antt =====
-- How the preparation of a bundle ends.
use solana_smart_tx.Base.{
  ℕ, ◌≡◌, refl, ◌⊎◌, inl, inr, String, Bool, true, false, Option, none, some, List, [], ◌∷◌, ◌++◌,
}
use Prim.Native.String.{◌++◌ as append}
use solana_smart_tx.Base.Text.{Text, codes}
use solana_smart_tx.Base.Result.{Result, err, ok, Result-cases}
use solana_smart_tx.Base.Json.{Serde}
use solana_smart_tx.Submitter.Types.{bad_response, BundleSpec}
use solana_smart_tx.Submitter.Sdk.{Sdk}
use solana_smart_tx.Submitter.Build.{Built, build_payload_tx, build_tip_tx, sign_swap_transaction}
use solana_smart_tx.Submitter.Submit.{
  Call, latest_blockhash, random_tip_account, Run, lift, transport_of, Gateway, SubmitterConfig,
  CachedBlockhash, Prepared, faulty_tip, wants_finalized, fault_label, resolve_blockhash,
  payload_of, prepare,
}

-- Where the blockhash comes from, and the calls that it takes.
abbrev pub hash_of : Gateway → Option CachedBlockhash → (finalized : Bool) → Result String
hash_of g (some c) false = ok c.hash
hash_of g none false = g.latest_blockhash false
hash_of g cache true = g.latest_blockhash true

abbrev pub hash_calls : Option CachedBlockhash → (finalized : Bool) → List Call
hash_calls (some c) false = []
hash_calls none false = latest_blockhash false ∷ []
hash_calls cache true = latest_blockhash true ∷ []

abbrev pub first_calls : Option CachedBlockhash → BundleSpec → List Call
first_calls cache spec = hash_calls cache (wants_finalized spec.fault) ++ random_tip_account ∷ []

abbrev pub hash : Gateway → Option CachedBlockhash → BundleSpec → Result String
hash g cache spec = hash_of g cache (wants_finalized spec.fault)

module _ (sdk : Sdk) (serde : Serde) (utf8 : String → List ℕ) (show : ℕ → String)
    (cfg : SubmitterConfig) (g : Gateway) (cache : Option CachedBlockhash) (spec : BundleSpec) where
  -- How the preparation ended.
  pub data PreparedBy (run : Run Prepared) : Type 0 where
    no_blockhash :
        (e : Text)
        → hash g cache spec ≡ err e
        → run ≡ (
          hash_calls cache (wants_finalized spec.fault),
          inl (transport_of "get_latest_blockhash" e),
        )
        → PreparedBy run
    no_account :
        (e : Text)
        → g.random_tip_account ≡ err e
        → run ≡ (first_calls cache spec, inl (transport_of "random_tip_account" e))
        → PreparedBy run
    unbuilt : (m : Text) → run ≡ (first_calls cache spec, inl (bad_response m)) → PreparedBy run
    ready :
        (p : Prepared) (key : String)
        → hash g cache spec ≡ ok p.blockhash
        → g.random_tip_account ≡ ok p.tip_account
        → sdk.pubkey_from_str p.tip_account ≡ ok key
        → build_tip_tx sdk (faulty_tip spec.fault spec.tip_lamports) key p.blockhash ≡ ok p.tx1
        → payload_of sdk serde utf8 show cfg spec p.blockhash spec.swap_tx_base64 ≡ ([], inr p.tx0)
        → p.tip_lamports ≡ faulty_tip spec.fault spec.tip_lamports
        → p.fault_injected ≡ fault_label show spec.fault
        → run ≡ (first_calls cache spec, inr p)
        → PreparedBy run

  resolve_lem :
      (o : Option CachedBlockhash) (f : Bool)
      → resolve_blockhash g o f
        ≡ lift (hash_calls o f) (transport_of "get_latest_blockhash") (hash_of g o f)
  unfolding resolve_blockhash
  resolve_lem (some c) false = refl
  resolve_lem none false = refl
  resolve_lem (some c) true = refl
  resolve_lem none true = refl

  payload_cases :
      (blockhash : String) (swap : Option String)
      → ((m : Text) × (payload_of sdk serde utf8 show cfg spec blockhash swap
            ≡ ([], inl (bad_response m))))
        ⊎ ((b : Built) × (payload_of sdk serde utf8 show cfg spec blockhash swap ≡ ([], inr b)))
  payload_cases blockhash (some tx) = elim (Result-cases (sign_swap_transaction sdk tx)) [
    | inl (e, h) ↦ inl (codes "swap tx sign failed" ++ codes ": " ++ e, rw h)
    | inr (b, h) ↦ inr (b, rw h)
  ]
  payload_cases blockhash none =
      elim (Result-cases (
        build_payload_tx sdk utf8 (append cfg.memo_prefix spec.memo_text) cfg.self_transfer_lamports
          spec.priority_fee_microlamports spec.priority_fee_cu_limit blockhash)) [
            | inl (e, h) ↦ inl (codes "bundle construction failed" ++ codes ": " ++ e, rw h)
            | inr (b, h) ↦ inr (b, rw h)
          ]

  pub prepare-PreparedBy : PreparedBy (prepare sdk serde utf8 show cfg g cache spec)
  unfolding prepare
  prepare-PreparedBy =
      rw (resolve_lem cache (wants_finalized spec.fault)) (elim (Result-cases (hash g cache spec)) [
        | inl (e, h) ↦ rw h (no_blockhash e h refl)
        | inr (a, h) ↦ rw h (elim (Result-cases g.random_tip_account) [
          | inl (e, h1) ↦ simp (h1) (no_account e h1 refl)
          | inr (account, h1) ↦ simp (h1) (elim (Result-cases (sdk.pubkey_from_str account)) [
            | inl (e, h2) ↦
                rw h2 (
                  unbuilt (codes "invalid tip account '" ++ codes account ++ codes "': " ++ e) refl)
            | inr (key, h2) ↦
                rw h2
                  (elim (Result-cases
                    (build_tip_tx sdk (faulty_tip spec.fault spec.tip_lamports) key a)) [
                      | inl (e, h3) ↦
                          rw h3 (unbuilt (codes "tip tx build failed" ++ codes ": " ++ e) refl)
                      | inr (tx1, h3) ↦ rw h3 (elim (payload_cases a spec.swap_tx_base64) [
                        | inl (m, h4) ↦ rw h4 (unbuilt m refl)
                        | inr (tx0, h4) ↦ rw h4 (
                            ready
                              (record {
                                tx0 = tx0;
                                tx1 = tx1;
                                tip_account = account;
                                tip_lamports = faulty_tip spec.fault spec.tip_lamports;
                                blockhash = a;
                                fault_injected = fault_label show spec.fault;
                              })
                              key h h1 h2 h3 h4 refl refl refl)
                      ])
                    ])
          ])
        ])
      ])
