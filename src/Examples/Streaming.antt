-- ===== src/Examples/Streaming.antt =====
-- A connection that fails, one that the server closes, and one whose consumer is gone.
use solana_smart_tx.Base.{
  ℕ, ◌≡◌, refl, String, true, false, Option, none, some, List, [], ◌∷◌, arith,
}
use solana_smart_tx.Base.Int.{ℤ, pos}
use solana_smart_tx.Base.Text.{Text}
use solana_smart_tx.Stream.Forward.{taken, full, delivered, undeliverable, forward}
use solana_smart_tx.Stream.Decode.{
  ProtoStatus, slot_confirmed, SubscribeUpdate, slot, transaction_status, Wire, decode, decode_slot,
  decode_tx_status, from_proto, build_subscribe_request,
}
use solana_smart_tx.Stream.Backoff.{next_delay, ceiling, scaled}
use solana_smart_tx.Stream.Client.{
  update, stream_end, report_tick, Connection, healthy_reset, receive, run_connection, supervise,
  run_inner,
}
use solana_smart_tx.Stream.Delays.{DelaysWithin, run_inner-DelaysWithin}

abbrev from_number : ℤ → Option ProtoStatus
from_number n = some slot_confirmed

abbrev no_signature : List ℕ → Option String
no_signature bytes = none

abbrev string : Text → String
string t = "0x"

abbrev wire : Wire
wire = record { try_from = from_number; base58 = no_signature; string = string }

abbrev refused : Connection
refused = record {
  connected = false;
  requested = true;
  subscribed = true;
  uptime = 2000;
  signal = taken;
  messages = [];
  jitter = λ d. d;
}

abbrev slot_at : ℕ → SubscribeUpdate
slot_at n = slot (record { slot = n; status = pos 1 })

abbrev landing : SubscribeUpdate
landing = transaction_status (record { slot = 8; signature = 1 ∷ 2 ∷ []; err = none })

abbrev short : Connection
short = record refused {
  connected = true;
  messages =
      update (slot_at 7) (pos 1) full delivered
      ∷ report_tick
      ∷ update landing (pos 2) full delivered
      ∷ stream_end
      ∷ [];
}

abbrev long : Connection
long = record short {
  uptime = healthy_reset;
  messages = update (slot_at 9) (pos 3) taken delivered ∷ stream_end ∷ [];
}

abbrev last : Connection
last = record short { messages = update landing (pos 4) taken undeliverable ∷ [] }

abbrev attempts : List Connection
attempts = refused ∷ short ∷ long ∷ last ∷ []

-- The first connection that is established is signalled, since it is the second attempt.
signals_lem : (run_inner wire attempts).signals ≡ 2 ∷ 3 ∷ 4 ∷ []
unfolding run_inner supervise run_connection receive next_delay ceiling scaled decode decode_slot
    decode_tx_status from_proto forward
signals_lem = refl

delays_lem : (run_inner wire attempts).delays ≡ 250000000 ∷ 500000000 ∷ 250000000 ∷ []
unfolding run_inner supervise run_connection receive next_delay ceiling scaled decode decode_slot
    decode_tx_status from_proto forward
delays_lem = refl

no_keys : (build_subscribe_request []).transactions ≡ []
unfolding build_subscribe_request
no_keys = refl

run_inner-DelaysWithin_example : DelaysWithin (run_inner wire attempts).delays attempts 0
run_inner-DelaysWithin_example =
    run_inner-DelaysWithin wire attempts
      ((λ d. omega arith), ((λ d. omega arith), ((λ d. omega arith), ((λ d. omega arith), tt))))
