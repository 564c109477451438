-- ===== src/Stream/Types.antt =====
-- crates/stream/src/lib.rs: the normalized events.
use solana_smart_tx.Base.{ℕ, Option, String}
use solana_smart_tx.Base.Int.{ℤ}
use solana_smart_tx.Base.Text.{Text}

pub data SlotStatus : Type 0 where
  processed confirmed finalized first_shred_received completed created_bank dead : SlotStatus

-- `received_at` is a `SystemTime`: milliseconds from the epoch.
pub record SlotUpdate : Type 0 where
  pub slot : ℕ
  pub status : SlotStatus
  pub received_at : ℤ

pub record TxStatusUpdate : Type 0 where
  pub signature : String
  pub slot : ℕ
  pub err : Option Text
  pub received_at : ℤ

pub data StreamEvent : Type 0 where
  slot_event : SlotUpdate → StreamEvent
  tx_status : TxStatusUpdate → StreamEvent
