-- ===== src/Stream/Forward.antt =====
-- crates/stream/src/lib.rs: `forward`. An update is given as what it decodes to; what tokio's channel
-- answers is given with it.
use solana_smart_tx.Base.{ℕ, suc, List, [], ◌∷◌}
use solana_smart_tx.Stream.Types.{SlotUpdate, TxStatusUpdate, StreamEvent, slot_event, tx_status}

pub data Update : Type 0 where
  slot_update : SlotUpdate → Update
  tx_update : TxStatusUpdate → Update
  other_update : Update

-- The answers of `try_send`, and of `send` once its future is ready.
pub data TrySend : Type 0 where
  taken full closed : TrySend

pub data Send : Type 0 where
  delivered undeliverable : Send

pub data ForwardResult : Type 0 where
  continues consumer_gone : ForwardResult

-- The events that the channel took, the counter and the result.
pub record Forwarded : Type 0 where
  pub events : List StreamEvent
  pub dropped_slots : ℕ
  pub result : ForwardResult

abbrev pub offer_slot : SlotUpdate → TrySend → ℕ → Forwarded
offer_slot s taken dropped = record {
  events = slot_event s ∷ [];
  dropped_slots = dropped;
  result = continues;
}
offer_slot s full dropped = record { events = []; dropped_slots = suc dropped; result = continues }
offer_slot s closed dropped = record {
  events = [];
  dropped_slots = dropped;
  result = consumer_gone;
}

abbrev pub send_tx : TxStatusUpdate → Send → ℕ → Forwarded
send_tx tx delivered dropped = record {
  events = tx_status tx ∷ [];
  dropped_slots = dropped;
  result = continues;
}
send_tx tx undeliverable dropped = record {
  events = [];
  dropped_slots = dropped;
  result = consumer_gone;
}

-- A slot event is offered by `try_send`, a transaction's by `send`.
unfoldable pub forward : Update → TrySend → Send → ℕ → Forwarded
forward (slot_update s) try_reply reply dropped = offer_slot s try_reply dropped
forward (tx_update tx) try_reply reply dropped = send_tx tx reply dropped
forward other_update try_reply reply dropped = record {
  events = [];
  dropped_slots = dropped;
  result = continues;
}
