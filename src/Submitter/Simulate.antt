-- ===== src/Submitter/Simulate.antt =====
-- crates/submitter/src/lib.rs: `simulate_bundle` and `dry_run_swap_bundle`, which build and do not send.
-- A versioned message's version, keys and blockhash are solana's.
use Prim.Native.String.{◌++◌ as append}
use solana_smart_tx.Base.{ℕ, String, Bool, true, false, not, inr, Option, none, some, List, [], ◌∷◌}
use solana_smart_tx.Base.Tests.{string_eq, ◌==◌}
use solana_smart_tx.Base.Text.{Text}
use solana_smart_tx.Base.Result.{Result, err, ok}
use solana_smart_tx.Base.Lists.{length}
use solana_smart_tx.Base.Json.{Serde}
use solana_smart_tx.Submitter.Types.{BundleSpec}
use solana_smart_tx.Submitter.Sdk.{Sdk}
use solana_smart_tx.Submitter.Build.{Built, build_tip_tx, sign_swap_transaction}
use solana_smart_tx.Submitter.Submit.{
  random_tip_account, simulate_transaction, Run, ◌>>=◌, lift, transport_of, bad_response_of,
  Gateway, SubmitterConfig, CachedBlockhash, Prepared, resolve_blockhash, invalid_account, prepare,
}

pub record SimulationResult : Type 0 where
  pub err : Option Text
  pub logs : List Text
  pub units_consumed : Option ℕ

-- The RPC's reply to `simulateTransaction`.
pub record RpcSimulateTransactionResult : Type 0 where
  pub err : Option String
  pub logs : Option (List Text)
  pub units_consumed : Option ℕ

abbrev logs_or_default : Option (List Text) → List Text
logs_or_default none = []
logs_or_default (some logs) = logs

abbrev shown : (String → Text) → Option String → Option Text
shown debug none = none
shown debug (some e) = some (debug e)

-- `LiveGateway::simulate_transaction`, where `debug` prints a transaction error.
unfoldable pub read_simulation :
    (debug : String → Text) → Result RpcSimulateTransactionResult → Result SimulationResult
read_simulation debug (err e) = err e
read_simulation debug (ok value) = ok (record {
  err = shown debug value.err;
  logs = logs_or_default value.logs;
  units_consumed = value.units_consumed;
})

pub record TxSimulation : Type 0 where
  pub label : String
  pub signature : String
  pub result : SimulationResult

pub record BundleSimulation : Type 0 where
  pub blockhash : String
  pub tip_account : String
  pub tip_lamports : ℕ
  pub transactions : List TxSimulation

pub record SwapDryRun : Type 0 where
  pub tx0_version : String
  pub tx0_signed : Bool
  pub tx0_signature : String
  pub tx0_num_accounts : ℕ
  pub tx0_blockhash : String
  pub tip_account : String
  pub tip_lamports : ℕ
  pub tip_signature : String
  pub tip_blockhash : String
  pub blockhashes_differ : Bool
  pub tx0_base64 : String
  pub tip_base64 : String
  pub tx0_simulation : Option SimulationResult

-- What solana knows of a versioned message, and the default signature.
pub record Messages : Type 0 where
  pub version : List ℕ → String
  pub static_account_keys : List ℕ → List String
  pub recent_blockhash : List ℕ → String
  pub default_signature : String

abbrev pub payload_label : Option String → String
payload_label none = "memo+self-transfer"
payload_label (some swap) = "swap"

-- `first()` is a signature that is not the default one.
abbrev pub is_signed : String → List String → Bool
is_signed default [] = false
is_signed default (s ∷ l) = not (s == default)

module _ (sdk : Sdk) (simulate : String → Result SimulationResult) where
  -- One call of `simulate_transaction`; `what` names it in the error.
  abbrev pub simulated : (what : String) (tx_base64 : String) → Run SimulationResult
  simulated what tx = lift (simulate_transaction tx ∷ []) (transport_of what) (simulate tx)

  abbrev pub simulate_one : (label : String) → Built → Run TxSimulation
  simulate_one label tx = do
    result ← simulated (append "simulate " label) tx.base64
    ([], inr (record { label = label; signature = tx.signature; result = result }))

  abbrev pub simulate_both : BundleSpec → Prepared → Run BundleSimulation
  simulate_both spec p = do
    first ← simulate_one (payload_label spec.swap_tx_base64) p.tx0
    second ← simulate_one "tip-transfer" p.tx1
    (
      [],
      inr (record {
        blockhash = p.blockhash;
        tip_account = p.tip_account;
        tip_lamports = p.tip_lamports;
        transactions = first ∷ second ∷ [];
      }),
    )

  unfoldable pub simulate_bundle :
      Serde
      → (String → List ℕ)
      → (ℕ → String)
      → SubmitterConfig
      → Gateway
      → Option CachedBlockhash
      → BundleSpec
      → Run BundleSimulation
  unfolding prepare
  simulate_bundle serde utf8 show cfg g cache spec = do
    p ← prepare sdk serde utf8 show cfg g cache spec
    simulate_both spec p

  abbrev pub maybe_simulated : Bool → (tx_base64 : String) → Run (Option SimulationResult)
  maybe_simulated false tx = ([], inr none)
  maybe_simulated true tx = do r ← simulated "simulate swap tx" tx; ([], inr (some r))

  module _ (serde : Serde) (utf8 : String → List ℕ) (show : ℕ → String) (cfg : SubmitterConfig)
      (msg : Messages) where
    unfoldable pub dry_run_swap_bundle :
        Gateway
        → Option CachedBlockhash
        → (swap_tx_base64 : String) (tip_lamports : ℕ) (simulation : Bool) → Run SwapDryRun
    unfolding sign_swap_transaction resolve_blockhash build_tip_tx
    dry_run_swap_bundle g cache swap_tx_base64 tip_lamports simulation = do
      tx0 ←
          lift [] (bad_response_of "swap tx sign failed") (sign_swap_transaction sdk swap_tx_base64)
      bytes ← lift [] (bad_response_of "tx0 base64 decode") (sdk.base64_decode tx0.base64)
      decoded ← lift [] (bad_response_of "tx0 decode") (sdk.deserialize_versioned bytes)
      blockhash ← resolve_blockhash g cache false
      account ←
          lift (random_tip_account ∷ []) (transport_of "random_tip_account") g.random_tip_account
      key ← lift [] (invalid_account sdk serde utf8 show cfg account) (sdk.pubkey_from_str account)
      tip ←
          lift [] (bad_response_of "tip tx build failed")
            (build_tip_tx sdk tip_lamports key blockhash)
      simulation ← maybe_simulated simulation tx0.base64
      (
        [],
        inr (record {
          tx0_version = msg.version decoded.message;
          tx0_signed = is_signed msg.default_signature decoded.signatures;
          tx0_signature = tx0.signature;
          tx0_num_accounts = length (msg.static_account_keys decoded.message);
          tx0_blockhash = msg.recent_blockhash decoded.message;
          tip_account = account;
          tip_lamports = tip_lamports;
          tip_signature = tip.signature;
          tip_blockhash = blockhash;
          blockhashes_differ = not (msg.recent_blockhash decoded.message == blockhash);
          tx0_base64 = tx0.base64;
          tip_base64 = tip.base64;
          tx0_simulation = simulation;
        }),
      )
