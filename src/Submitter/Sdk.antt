-- ===== src/Submitter/Sdk.antt =====
-- What crates/submitter/src/lib.rs takes from the Solana crates, bincode and base64: transactions,
-- their signing and their wire form. Keys, hashes and signatures are their base58 texts.
use solana_smart_tx.Base.{
  ℕ, zero, suc, ◌+◌, ◌*◌, ◌/◌, ◌%◌, ◌≡◌, String, Option, none, some, List, [], ◌∷◌, map,
}
use solana_smart_tx.Base.Lists.{get_elem?}
use solana_smart_tx.Base.Result.{Result, ok}

pub record Instruction : Type 0 where
  pub program_id : String
  pub accounts : List String
  pub bytes : List ℕ

pub record CompiledInstruction : Type 0 where
  pub program_id_index : ℕ
  pub account_indices : List ℕ
  pub bytes : List ℕ

-- A signed transaction has a first signature, the fee payer's.
pub record Transaction : Type 0 where
  pub signature : String
  pub more_signatures : List String
  pub account_keys : List String
  pub recent_blockhash : String
  pub instructions : List CompiledInstruction

pub record VersionedTransaction : Type 0 where
  pub signatures : List String
  pub message : List ℕ

-- The operations, with the wallet's key pair in them.
pub record Sdk : Type 0 where
  pub payer : String
  pub pubkey_from_str : String → Result String
  pub transfer : (from to : String) (lamports : ℕ) → Instruction
  pub new_signed : List Instruction → (blockhash : String) → Transaction
  pub serialize : Transaction → Result (List ℕ)
  pub deserialize : List ℕ → Result Transaction
  pub deserialize_versioned : List ℕ → Result VersionedTransaction
  pub try_new : (message : List ℕ) → Result VersionedTransaction
  pub serialize_versioned : VersionedTransaction → Result (List ℕ)
  pub base64_encode : List ℕ → String
  pub base64_decode : String → Result (List ℕ)

-- `to_le_bytes` and `from_le_bytes`, for a number of bytes.
unfoldable pub le_bytes : (width : ℕ) → ℕ → List ℕ
le_bytes zero n = []
le_bytes (suc k) n = (n % 256) ∷ le_bytes k (n / 256)

unfoldable pub from_le_bytes : List ℕ → ℕ
from_le_bytes [] = 0
from_le_bytes (b ∷ bs) = b + 256 * from_le_bytes bs

-- `SYSTEM_PROGRAM_ID`, which is also the text of `Pubkey::default()`.
abbrev pub system_program_id : String
system_program_id = "11111111111111111111111111111111"

-- `keys.get(idx).copied().unwrap_or_default()`.
abbrev pub key_or_default : Option String → String
key_or_default none = system_program_id
key_or_default (some k) = k

unfoldable pub resolve : List String → ℕ → String
resolve keys i = key_or_default (get_elem? keys i)

abbrev pub resolve_instruction : List String → CompiledInstruction → Instruction
resolve_instruction keys ci = record {
  program_id = resolve keys ci.program_id_index;
  accounts = map (resolve keys) ci.account_indices;
  bytes = ci.bytes;
}

-- What the code relies on: the layout of a transfer, a compiled message that still refers to the
-- keys of its instructions, and the round trips of the codings.
pub record Documented (sdk : Sdk) : Type 0 where
  pub transfer_lem :
      (from to : String) (lamports : ℕ)
      → sdk.transfer from to lamports ≡ record {
        program_id = system_program_id;
        accounts = from ∷ to ∷ [];
        bytes = 2 ∷ 0 ∷ 0 ∷ 0 ∷ le_bytes 8 lamports;
      }
  pub compiled :
      (ixs : List Instruction) (blockhash : String)
      → map
          (resolve_instruction (sdk.new_signed ixs blockhash).account_keys)
          (sdk.new_signed ixs blockhash).instructions
        ≡ ixs
  pub deserialize-serialize :
      (tx : Transaction) (b : List ℕ) → sdk.serialize tx ≡ ok b → sdk.deserialize b ≡ ok tx
  pub decode-encode :
      (tx : Transaction) (b : List ℕ)
      → sdk.serialize tx ≡ ok b
      → sdk.base64_decode (sdk.base64_encode b) ≡ ok b
