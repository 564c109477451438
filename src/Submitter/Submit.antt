-- ===== src/Submitter/Submit.antt =====
-- crates/submitter/src/lib.rs: `BundleSubmitter::submit` with `prepare` and `resolve_blockhash`. The
-- gateway's replies are given, and the calls that are made of it are recorded. The two steps that
-- only log, the diagnostic and the optional simulation, are left out.
use solana_smart_tx.Base.{
  ℕ, String, Bool, true, false, ◌⊎◌, inl, inr, Option, none, some, List, [], ◌∷◌, ◌++◌,
}
use Prim.Native.String.{◌++◌ as append}
use solana_smart_tx.Base.Int.{ℤ}
use solana_smart_tx.Base.Text.{Text, codes}
use solana_smart_tx.Base.Result.{Result, err, ok}
use solana_smart_tx.Base.Json.{Value, Serde, member, as_str, and_then}
use solana_smart_tx.Submitter.Types.{
  BundleRecord, SubmitError, rejected, transport, bad_response, Fault, stale_blockhash,
  sub_floor_tip, BundleSpec,
}
use solana_smart_tx.Submitter.Sdk.{Sdk}
use solana_smart_tx.Submitter.Build.{Built, build_payload_tx, build_tip_tx, sign_swap_transaction}

pub data Call : Type 0 where
  latest_blockhash : (finalized : Bool) → Call
  random_tip_account : Call
  send_bundle : (txs_base64 : List String) → Call
  simulate_transaction : (tx_base64 : String) → Call

-- The calls made so far, and the result.
abbrev pub Run : Type 0 → Type 0
Run A = List Call × (SubmitError ⊎ A)

infixl 5 ◌>>=◌
abbrev pub ◌>>=◌ : {A B : Type 0} → Run A → (A → Run B) → Run B
(calls, inl e) >>= f = (calls, inl e)
(calls, inr a) >>= f = let (more, r) = f a in (calls ++ more, r)

-- The result of a call, or of a computation, with its message as an error of the given kind.
abbrev pub lift : {A : Type 0} → List Call → (Text → SubmitError) → Result A → Run A
lift calls error (err e) = (calls, inl (error e))
lift calls error (ok a) = (calls, inr a)

abbrev pub transport_of : (what : String) → Text → SubmitError
transport_of what e = transport (codes what ++ codes ": " ++ e)

abbrev pub bad_response_of : (what : String) → Text → SubmitError
bad_response_of what e = bad_response (codes what ++ codes ": " ++ e)

pub record Gateway : Type 0 where
  pub latest_blockhash : (finalized : Bool) → Result String
  pub random_tip_account : Result String
  pub send_bundle : (txs_base64 : List String) → Result Value

pub record SubmitterConfig : Type 0 where
  pub memo_prefix : String
  pub self_transfer_lamports : ℕ

pub record CachedBlockhash : Type 0 where
  pub hash : String
  pub fetched_at_slot : ℕ

pub record Prepared : Type 0 where
  pub tx0 : Built
  pub tx1 : Built
  pub tip_account : String
  pub tip_lamports : ℕ
  pub blockhash : String
  pub fault_injected : Option String

-- The overrides of an injected fault.
abbrev pub faulty_tip : Option Fault → ℕ → ℕ
faulty_tip (some (sub_floor_tip lamports)) tip = lamports
faulty_tip (some (stale_blockhash age)) tip = tip
faulty_tip none tip = tip

abbrev pub wants_finalized : Option Fault → Bool
wants_finalized (some (stale_blockhash age)) = true
wants_finalized (some (sub_floor_tip lamports)) = false
wants_finalized none = false

-- `show` prints a number.
abbrev pub fault_label : (show : ℕ → String) → Option Fault → Option String
fault_label show (some (stale_blockhash age)) = some (
    append "StaleBlockhash{requested_age_slots="
      (append (show age) ",actual=finalized_commitment}"))
fault_label show (some (sub_floor_tip lamports)) =
    some (append "SubFloorTip{lamports=" (append (show lamports) "}"))
fault_label show none = none

-- The cache is passed by if the fault wants an old hash.
unfoldable pub resolve_blockhash :
    Gateway → Option CachedBlockhash → (finalized : Bool) → Run String
resolve_blockhash g (some c) false = ([], inr c.hash)
resolve_blockhash g none false =
    lift (latest_blockhash false ∷ []) (transport_of "get_latest_blockhash")
      (g.latest_blockhash false)
resolve_blockhash g cache true =
    lift (latest_blockhash true ∷ []) (transport_of "get_latest_blockhash")
      (g.latest_blockhash true)

abbrev reason_of : Serde → Value → Option String → Text
reason_of serde error none = serde.print error
reason_of serde error (some message) = codes message

-- The bundle id of a response with these members.
abbrev pub read_response :
    Serde → Value → (error : Option Value) → (id : Option String) → SubmitError ⊎ String
read_response serde response (some error) id =
    inl (rejected (reason_of serde error (and_then (member "message" error) as_str)))
read_response serde response none (some id) = inr id
read_response serde response none none = inl (bad_response (serde.print response))

unfoldable pub parse_send_response : Serde → Value → SubmitError ⊎ String
parse_send_response serde response =
    read_response serde response (member "error" response)
      (and_then (member "result" response) as_str)

module _ (sdk : Sdk) (serde : Serde) (utf8 : String → List ℕ) (show : ℕ → String)
    (cfg : SubmitterConfig) where
  abbrev pub payload_of : BundleSpec → (blockhash : String) → Option String → Run Built
  payload_of spec blockhash (some swap) =
      lift [] (bad_response_of "swap tx sign failed") (sign_swap_transaction sdk swap)
  payload_of spec blockhash none = lift [] (bad_response_of "bundle construction failed") (
      build_payload_tx sdk utf8 (append cfg.memo_prefix spec.memo_text) cfg.self_transfer_lamports
        spec.priority_fee_microlamports spec.priority_fee_cu_limit blockhash)

  abbrev pub invalid_account : String → Text → SubmitError
  invalid_account account e =
      bad_response (codes "invalid tip account '" ++ codes account ++ codes "': " ++ e)

  unfoldable pub prepare : Gateway → Option CachedBlockhash → BundleSpec → Run Prepared
  unfolding resolve_blockhash
  prepare g cache spec = do
    blockhash ← resolve_blockhash g cache (wants_finalized spec.fault)
    account ←
        lift (random_tip_account ∷ []) (transport_of "random_tip_account") g.random_tip_account
    key ← lift [] (invalid_account account) (sdk.pubkey_from_str account)
    let tip = faulty_tip spec.fault spec.tip_lamports
    tx1 ← lift [] (bad_response_of "tip tx build failed") (build_tip_tx sdk tip key blockhash)
    tx0 ← payload_of spec blockhash spec.swap_tx_base64
    (
      [],
      inr (record {
        tx0 = tx0;
        tx1 = tx1;
        tip_account = account;
        tip_lamports = tip;
        blockhash = blockhash;
        fault_injected = fault_label show spec.fault;
      }),
    )

  abbrev pub record_of : Prepared → (current_slot : ℕ) → (submitted_at : ℤ) → String → BundleRecord
  record_of p current_slot submitted_at id = record {
    bundle_id = id;
    tip_lamports = p.tip_lamports;
    tip_account = p.tip_account;
    memo_signature = p.tx0.signature;
    tip_signature = p.tx1.signature;
    blockhash = p.blockhash;
    blockhash_fetched_at_slot = current_slot;
    submitted_at = submitted_at;
    fault_injected = p.fault_injected;
  }

  abbrev pub bundle_of : Prepared → List String
  bundle_of p = p.tx0.base64 ∷ p.tx1.base64 ∷ []

  -- The second half of `submit`.
  abbrev pub send : Gateway → (current_slot : ℕ) → (submitted_at : ℤ) → Prepared → Run BundleRecord
  send g current_slot submitted_at p = do
    response ←
        lift (send_bundle (bundle_of p) ∷ []) (transport_of "send_bundle")
          (g.send_bundle (bundle_of p))
    id ← ([], parse_send_response serde response)
    ([], inr (record_of p current_slot submitted_at id))

  unfoldable pub submit :
      Gateway
      → Option CachedBlockhash
      → BundleSpec
      → (current_slot : ℕ) → (submitted_at : ℤ) → Run BundleRecord
  unfolding prepare parse_send_response
  submit g cache spec current_slot submitted_at = do
    p ← prepare g cache spec
    send g current_slot submitted_at p
