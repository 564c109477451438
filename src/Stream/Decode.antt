-- ===== src/Stream/Decode.antt =====
-- crates/stream/src/lib.rs: the decoding of the updates, and the subscription. yellowstone's numbers of
-- the slot statuses and solana's base58 printing of a signature are parameters; `string` makes a
-- string of a text.
use solana_smart_tx.Base.{ℕ, String, Bool, true, false, Option, none, some, List, [], ◌∷◌}
use solana_smart_tx.Base.Int.{ℤ}
use solana_smart_tx.Base.Map.{Map}
use solana_smart_tx.Base.Text.{Text}
use solana_smart_tx.Failure.Hex.{hex_encode}
use solana_smart_tx.Stream.Types.{
  SlotStatus, processed, confirmed, finalized, first_shred_received, completed, created_bank, dead,
  SlotUpdate, TxStatusUpdate,
}
use solana_smart_tx.Stream.Forward.{Update, slot_update, tx_update, other_update}

-- yellowstone's `SlotStatus`, as far as the source names it.
pub data ProtoStatus : Type 0 where
  slot_processed slot_confirmed slot_finalized slot_first_shred_received slot_completed
        slot_created_bank slot_dead :
      ProtoStatus

pub record SubscribeUpdateSlot : Type 0 where
  pub slot : ℕ
  pub status : ℤ

pub record SubscribeUpdateTransactionStatus : Type 0 where
  pub slot : ℕ
  pub signature : List ℕ
  pub err : Option (List ℕ)

pub data SubscribeUpdate : Type 0 where
  slot : SubscribeUpdateSlot → SubscribeUpdate
  transaction_status : SubscribeUpdateTransactionStatus → SubscribeUpdate
  other : SubscribeUpdate

abbrev pub status_of : Option ProtoStatus → SlotStatus
status_of (some slot_processed) = processed
status_of (some slot_confirmed) = confirmed
status_of (some slot_finalized) = finalized
status_of (some slot_first_shred_received) = first_shred_received
status_of (some slot_completed) = completed
status_of (some slot_created_bank) = created_bank
status_of (some slot_dead) = dead
status_of none = processed

abbrev hex_option : Option (List ℕ) → Option Text
hex_option none = none
hex_option (some bytes) = some (hex_encode bytes)

pub record Wire : Type 0 where
  pub try_from : ℤ → Option ProtoStatus
  pub base58 : List ℕ → Option String
  pub string : Text → String

module _ (wire : Wire) where
  unfoldable pub from_proto : ℤ → SlotStatus
  from_proto value = status_of (wire.try_from value)

  unfoldable pub decode_slot : SubscribeUpdateSlot → ℤ → SlotUpdate
  unfolding from_proto
  decode_slot update received_at = record {
    slot = update.slot;
    status = from_proto update.status;
    received_at = received_at;
  }

  -- Bytes that are no signature are printed in hex.
  abbrev pub signature_or_hex : List ℕ → Option String → String
  signature_or_hex bytes (some s) = s
  signature_or_hex bytes none = wire.string (hex_encode bytes)

  unfoldable pub decode_tx_status : SubscribeUpdateTransactionStatus → ℤ → TxStatusUpdate
  decode_tx_status update received_at = record {
    signature = signature_or_hex update.signature (wire.base58 update.signature);
    slot = update.slot;
    err = hex_option update.err;
    received_at = received_at;
  }

  -- What `forward` makes of an update.
  unfoldable pub decode : SubscribeUpdate → ℤ → Update
  unfolding decode_slot decode_tx_status
  decode (slot s) received_at = slot_update (decode_slot s received_at)
  decode (transaction_status tx) received_at = tx_update (decode_tx_status tx received_at)
  decode other received_at = other_update

pub record SlotFilter : Type 0 where
  pub filter_by_commitment : Option Bool
  pub interslot_updates : Option Bool

pub record TransactionFilter : Type 0 where
  pub vote : Option Bool
  pub failed : Option Bool
  pub signature : Option String
  pub account_include : List String
  pub account_exclude : List String
  pub account_required : List String

-- The two maps that are set; the other fields keep their defaults.
pub record SubscribeRequest : Type 0 where
  pub slots : Map String SlotFilter
  pub transactions : Map String TransactionFilter

abbrev pub transactions_for : List String → Map String TransactionFilter
transactions_for [] = []
transactions_for (p ∷ monitored) =
    (
      "monitored",
      record {
        vote = none;
        failed = some true;
        signature = none;
        account_include = p ∷ monitored;
        account_exclude = [];
        account_required = [];
      },
    )
    ∷ []

-- The keys are given as they are printed.
unfoldable pub build_subscribe_request : List String → SubscribeRequest
build_subscribe_request monitored = record {
  slots =
      ("slots", record { filter_by_commitment = some false; interslot_updates = some false }) ∷ [];
  transactions = transactions_for monitored;
}
