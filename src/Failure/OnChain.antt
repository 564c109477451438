-- ===== src/Failure/OnChain.antt =====
-- crates/failure/src/lib.rs: `classify_on_chain` and `map_tx_error`.
use solana_smart_tx.Base.{ℕ, ◌⊎◌, inl, inr, none, some, List, [], ◌∷◌}
use solana_smart_tx.Base.Text.{Text}
use solana_smart_tx.Failure.Types.{
  expired_blockhash, compute_exceeded, bundle_failure, certain, likely, ambiguous, lit, num, debug,
  Classification,
}
use solana_smart_tx.Failure.Hex.{decode_hex}

-- `solana_instruction_error::InstructionError` as far as the match looks into it.
pub data InstructionError : Type 0 where
  computational_budget_exceeded : InstructionError
  other_instruction_error : (shown : Text) → InstructionError

-- `solana_transaction_error::TransactionError` as far as the match looks into it: the variants that
-- the source names; `other_error` is any other one, with the text that `{:?}` prints.
pub data TransactionError : Type 0 where
  blockhash_not_found : TransactionError
  instruction_error : (ix : ℕ) → InstructionError → TransactionError
  max_loaded_accounts_data_size_exceeded : TransactionError
  other_error : (shown : Text) → TransactionError

-- `bincode::deserialize::<TransactionError>`: an error text or the value.
abbrev pub Deserialize : Type 0
Deserialize = List ℕ → Text ⊎ TransactionError

unfoldable map_tx_error : TransactionError → ℕ → Classification
map_tx_error blockhash_not_found slot = record {
  kind = expired_blockhash;
  confidence = certain;
  rationale = lit "on-chain TransactionError::BlockhashNotFound at slot " ∷ num slot ∷ [];
}
map_tx_error (instruction_error ix computational_budget_exceeded) slot = record {
  kind = compute_exceeded;
  confidence = certain;
  rationale =
      lit "on-chain compute-budget exceeded at slot "
      ∷ num slot
      ∷ lit ": instruction "
      ∷ num ix
      ∷ lit " returned ComputationalBudgetExceeded"
      ∷ [];
}
map_tx_error (instruction_error ix (other_instruction_error shown)) slot = record {
  kind = bundle_failure;
  confidence = likely;
  rationale =
      lit "on-chain failure at slot "
      ∷ num slot
      ∷ lit ": InstructionError("
      ∷ num ix
      ∷ lit ", "
      ∷ debug shown
      ∷ lit ")"
      ∷ [];
}
map_tx_error max_loaded_accounts_data_size_exceeded slot = record {
  kind = compute_exceeded;
  confidence = certain;
  rationale =
      lit "on-chain compute budget exceeded at slot "
      ∷ num slot
      ∷ lit ": MaxLoadedAccountsDataSizeExceeded"
      ∷ [];
}
map_tx_error (other_error shown) slot = record {
  kind = bundle_failure;
  confidence = likely;
  rationale = lit "on-chain failure at slot " ∷ num slot ∷ lit ": " ∷ debug shown ∷ [];
}

undecodable_hex : Text → ℕ → Classification
undecodable_hex raw_error_hex slot = record {
  kind = bundle_failure;
  confidence = ambiguous [];
  rationale =
      lit "could not hex-decode on-chain error (slot "
      ∷ num slot
      ∷ lit "); raw hex preserved: "
      ∷ debug raw_error_hex
      ∷ [];
}

undecodable_error : Text → ℕ → Text → Classification
undecodable_error raw_error_hex slot err = record {
  kind = bundle_failure;
  confidence = ambiguous [];
  rationale =
      lit "could not decode TransactionError (slot "
      ∷ num slot
      ∷ lit "): "
      ∷ debug err
      ∷ lit "; raw hex preserved: "
      ∷ debug raw_error_hex
      ∷ [];
}

module _ (deserialize : Deserialize) where
  decoded_bytes : Text → ℕ → List ℕ → Classification
  unfolding map_tx_error undecodable_error
  decoded_bytes raw_error_hex slot bytes = elim (deserialize bytes) [
    | inr tx_error ↦ map_tx_error tx_error slot
    | inl err ↦ undecodable_error raw_error_hex slot err
  ]

  unfoldable pub classify_on_chain : Text → ℕ → Classification
  unfolding undecodable_hex decoded_bytes
  classify_on_chain raw_error_hex slot = elim (decode_hex raw_error_hex) [
    | none ↦ undecodable_hex raw_error_hex slot
    | some bytes ↦ decoded_bytes raw_error_hex slot bytes
  ]
