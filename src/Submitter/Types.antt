-- ===== src/Submitter/Types.antt =====
-- crates/submitter/src/lib.rs: `BundleRecord` and `SubmitError` with its `Display`.
use solana_smart_tx.Base.{ℕ, String, Option, ◌++◌}
use solana_smart_tx.Base.Int.{ℤ}
use solana_smart_tx.Base.Text.{Text, codes}

pub record BundleRecord : Type 0 where
  pub bundle_id : String
  pub tip_lamports : ℕ
  pub tip_account : String
  pub memo_signature : String
  pub tip_signature : String
  pub blockhash : String
  pub blockhash_fetched_at_slot : ℕ
  pub submitted_at : ℤ
  pub fault_injected : Option String

pub data SubmitError : Type 0 where
  rejected : (reason : Text) → SubmitError
  transport : Text → SubmitError
  bad_response : Text → SubmitError

-- The text of `to_string`.
unfoldable pub display : SubmitError → Text
display (rejected reason) = codes "bundle rejected by block engine: " ++ reason
display (transport e) = codes "transport error: " ++ e
display (bad_response e) = codes "bad response from block engine: " ++ e

pub data Fault : Type 0 where
  stale_blockhash : (age_slots : ℕ) → Fault
  sub_floor_tip : (lamports : ℕ) → Fault

-- One bundle to build and send, with the feature `fault-injection`.
pub record BundleSpec : Type 0 where
  pub tip_lamports : ℕ
  pub memo_text : String
  pub priority_fee_microlamports : ℕ
  pub priority_fee_cu_limit : ℕ
  pub swap_tx_base64 : Option String
  pub fault : Option Fault
