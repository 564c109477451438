-- ===== src/Submitter/Decode.antt =====
-- crates/submitter/src/lib.rs: the diagnostic of a bundle, `decode_bundle_tx` and
-- `bundle_has_valid_tip`.
use solana_smart_tx.Base.{
  ℕ, String, Bool, false, ◌&&◌, Option, none, some, List, [], ◌∷◌, ◌++◌, map,
}
use solana_smart_tx.Base.Tests.{nat_eq, string_eq, ◌==◌, leb, if◌then◌else◌}
use solana_smart_tx.Base.Lists.{length, take, drop, any}
use solana_smart_tx.Base.Text.{text_eq, codes}
use solana_smart_tx.Base.Result.{Result, err, ok, ◌>>=◌, map_err}
use solana_smart_tx.Submitter.Sdk.{
  Instruction, Transaction, Sdk, from_le_bytes, system_program_id, resolve, resolve_instruction,
}

abbrev pub jito_min_tip_lamports : ℕ
jito_min_tip_lamports = 1000

pub record DecodedTransfer : Type 0 where
  pub from : String
  pub to : String
  pub lamports : ℕ

pub record DecodedInstruction : Type 0 where
  pub program_id : String
  pub accounts : List String
  pub data_len : ℕ
  pub transfer : Option DecodedTransfer

pub record DecodedBundleTx : Type 0 where
  pub fee_payer : String
  pub recent_blockhash : String
  pub num_signatures : ℕ
  pub account_keys : List String
  pub instructions : List DecodedInstruction

-- The first two accounts; the guard of `decode_transfer` has seen that they are there.
abbrev pub transfer_between : List String → ℕ → Option DecodedTransfer
transfer_between [] lamports = none
transfer_between (a ∷ []) lamports = none
transfer_between (a ∷ b ∷ l) lamports = some (record { from = a; to = b; lamports = lamports })

unfoldable pub decode_transfer : Instruction → Option DecodedTransfer
unfolding from_le_bytes
decode_transfer ix =
    if ix.program_id == system_program_id
      && length ix.bytes == 12
      && take 4 ix.bytes == 2 ∷ 0 ∷ 0 ∷ 0 ∷ []
      && leb 2 (length ix.accounts)
    then transfer_between ix.accounts (from_le_bytes (drop 4 ix.bytes))
    else none

unfoldable pub decoded : Instruction → DecodedInstruction
unfolding decode_transfer
decoded ix = record {
  program_id = ix.program_id;
  accounts = ix.accounts;
  data_len = length ix.bytes;
  transfer = decode_transfer ix;
}

unfoldable pub decode_tx : Transaction → DecodedBundleTx
unfolding decoded
decode_tx tx = record {
  fee_payer = resolve tx.account_keys 0;
  recent_blockhash = tx.recent_blockhash;
  num_signatures = length (tx.signature ∷ tx.more_signatures);
  account_keys = tx.account_keys;
  instructions = map decoded (map (resolve_instruction tx.account_keys) tx.instructions);
}

abbrev pub is_tip :
    (tip_account : String) (tip_lamports : ℕ) (payer : String) → Option DecodedTransfer → Bool
is_tip tip_account tip_lamports payer none = false
is_tip tip_account tip_lamports payer (some t) =
    t.from == payer
    && t.to == tip_account
    && t.lamports == tip_lamports
    && leb jito_min_tip_lamports t.lamports

abbrev pub tips :
    (tip_account : String) (tip_lamports : ℕ) (payer : String) → Result DecodedBundleTx → Bool
tips tip_account tip_lamports payer (err e) = false
tips tip_account tip_lamports payer (ok d) =
    any (λ ix. is_tip tip_account tip_lamports payer ix.transfer) d.instructions

module _ (sdk : Sdk) where
  unfoldable pub decode_bundle_tx : String → Result DecodedBundleTx
  unfolding decode_tx
  decode_bundle_tx tx_base64 = do
    bytes ← map_err (λ e. codes "base64 decode failed: " ++ e) (sdk.base64_decode tx_base64)
    tx ← map_err (λ e. codes "bincode decode failed: " ++ e) (sdk.deserialize bytes)
    ok (decode_tx tx)

  unfoldable pub bundle_has_valid_tip :
      List String → (tip_account : String) → (tip_lamports : ℕ) → String → Bool
  unfolding decode_bundle_tx
  bundle_has_valid_tip txs tip_account tip_lamports payer =
      any (λ b64. tips tip_account tip_lamports payer (decode_bundle_tx b64)) txs
