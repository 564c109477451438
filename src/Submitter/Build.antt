-- ===== src/Submitter/Build.antt =====
-- crates/submitter/src/lib.rs: the construction of the two transactions of a bundle.
use solana_smart_tx.Base.{ℕ, String, List, [], ◌∷◌, ◌++◌}
use solana_smart_tx.Base.Tests.{ltb, if◌then◌else◌}
use solana_smart_tx.Base.Text.{codes}
use solana_smart_tx.Base.Result.{Result, err, ok, ◌>>=◌, map_err}
use solana_smart_tx.Submitter.Sdk.{Instruction, Transaction, Sdk, le_bytes}

abbrev pub memo_program_id : String
memo_program_id = "MemoSq4gqABAXKb96qnH8TysNcWxMyWCqXgDLGmfcHr"

abbrev pub compute_budget_program_id : String
compute_budget_program_id = "ComputeBudget111111111111111111111111111111"

-- The bytes of a memo are its UTF-8, which `utf8` gives.
abbrev pub memo_instruction : (utf8 : String → List ℕ) → String → Instruction
memo_instruction utf8 memo = record {
  program_id = memo_program_id;
  accounts = [];
  bytes = utf8 memo;
}

abbrev pub compute_unit_price_instruction : ℕ → Instruction
compute_unit_price_instruction micro_lamports = record {
  program_id = compute_budget_program_id;
  accounts = [];
  bytes = 3 ∷ le_bytes 8 micro_lamports;
}

abbrev pub compute_unit_limit_instruction : ℕ → Instruction
compute_unit_limit_instruction units = record {
  program_id = compute_budget_program_id;
  accounts = [];
  bytes = 2 ∷ le_bytes 4 units;
}

-- A transaction with its first signature and its encoding.
pub record Built : Type 0 where
  pub base64 : String
  pub signature : String

module _ (sdk : Sdk) where
  unfoldable pub encode_tx : Transaction → Result String
  encode_tx tx = do bytes ← sdk.serialize tx; ok (sdk.base64_encode bytes)

  abbrev pub built : Transaction → Result Built
  built tx = do base64 ← encode_tx tx; ok (record { base64 = base64; signature = tx.signature })

  -- The limit goes before the price, and both only with a price.
  abbrev pub budget_instructions : (price cu_limit : ℕ) → List Instruction
  budget_instructions price cu_limit =
      if ltb 0 price
      then (if ltb 0 cu_limit
          then compute_unit_limit_instruction cu_limit ∷ compute_unit_price_instruction price ∷ []
          else compute_unit_price_instruction price ∷ [])
      else []

  abbrev pub payload_instructions :
      (utf8 : String → List ℕ)
      → String
      → (self_transfer_lamports price cu_limit : ℕ) → List Instruction
  payload_instructions utf8 memo self_transfer_lamports price cu_limit =
      budget_instructions price cu_limit
      ++ (memo_instruction utf8 memo ∷ sdk.transfer sdk.payer sdk.payer self_transfer_lamports ∷ [])

  unfoldable pub build_payload_tx :
      (utf8 : String → List ℕ)
      → String
      → (self_transfer_lamports price cu_limit : ℕ) → String
      → Result Built
  unfolding encode_tx
  build_payload_tx utf8 memo self_transfer_lamports price cu_limit blockhash = built (
      sdk.new_signed (payload_instructions utf8 memo self_transfer_lamports price cu_limit)
        blockhash)

  unfoldable pub build_tip_tx : ℕ → (tip_account blockhash : String) → Result Built
  unfolding encode_tx
  build_tip_tx tip_lamports tip_account blockhash =
      built (sdk.new_signed (sdk.transfer sdk.payer tip_account tip_lamports ∷ []) blockhash)

  abbrev pub first_signature : List String → Result String
  first_signature [] = err (codes "swap tx has no signature after signing")
  first_signature (s ∷ l) = ok s

  -- Jupiter's transaction is signed as it is.
  unfoldable pub sign_swap_transaction : String → Result Built
  sign_swap_transaction swap_tx_base64 = do
    bytes ← map_err (λ e. codes "swap tx base64 decode: " ++ e) (sdk.base64_decode swap_tx_base64)
    tx ← map_err (λ e. codes "swap tx bincode decode: " ++ e) (sdk.deserialize_versioned bytes)
    signed ← map_err (λ e. codes "swap tx sign: " ++ e) (sdk.try_new tx.message)
    signature ← first_signature signed.signatures
    out ← map_err (λ e. codes "swap tx bincode encode: " ++ e) (sdk.serialize_versioned signed)
    ok (record { base64 = sdk.base64_encode out; signature = signature })
