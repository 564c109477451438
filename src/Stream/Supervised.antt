-- ===== src/Stream/Supervised.antt =====
-- What the supervisor of the stream delivers over its reconnects.
use solana_smart_tx.Base.{
  ℕ, zero, suc, ◌≡◌, ◌≢◌, ◌⊎◌, Bool, true, false, Option, none, some, List, [], ◌∷◌, ◌++◌,
}
use solana_smart_tx.Stream.Forward.{Update}
use solana_smart_tx.Stream.Delivery.{Delivery, Accounts}
use solana_smart_tx.Stream.Decode.{Wire, decode}
use solana_smart_tx.Stream.Client.{
  Message, update, stream_error, stream_end, report_tick, Connection, ConnEnd, server_closed,
  disconnected, gone, Received, established, Supervised,
}

-- Updates are left exactly where the consumer is gone.
abbrev LeftAt : Option ConnEnd → List Update → Type 0
LeftAt (some gone) left = left ≢ []
LeftAt (some server_closed) left = left ≡ []
LeftAt (some disconnected) left = left ≡ []
LeftAt none left = left ≡ []

abbrev received_delivery : Received → List Update → Delivery
received_delivery r left = record {
  events = r.events;
  dropped_slots = r.dropped_slots;
  left = left;
}

abbrev pub run_delivery : Supervised → List Update → Delivery
run_delivery run left = record {
  events = run.events;
  dropped_slots = run.dropped_slots;
  left = left;
}

module _ (wire : Wire) where
  -- The updates of a connection before it fails or ends.
  abbrev pub heard : List Message → List Update
  heard [] = []
  heard (update u now try_reply reply ∷ l) = decode wire u now ∷ heard l
  heard (stream_error ∷ l) = []
  heard (stream_end ∷ l) = []
  heard (report_tick ∷ l) = heard l

  abbrev pub heard_if : Bool → List Message → List Update
  heard_if true l = heard l
  heard_if false l = []

  -- Those of the first `n` attempts.
  abbrev pub heard_in : (n : ℕ) → List Connection → List Update
  heard_in zero l = []
  heard_in (suc n) [] = []
  heard_in (suc n) (c ∷ l) = heard_if (established c) c.messages ++ heard_in n l

  abbrev Receives : List Update → ℕ → Received → Type 0
  Receives updates dropped r =
      (left : List Update) × Accounts updates dropped (received_delivery r left) × LeftAt r.end left

  -- What a run has delivered, dropped and left of the updates of its attempts; something is left
  -- exactly if it has returned.
  abbrev pub RunAccounts : List Connection → ℕ → Supervised → Type 0
  RunAccounts l dropped run =
      (left : List Update) × Accounts (heard_in run.attempts l) dropped (run_delivery run left)
      × (((run.returned ≡ false) × (left ≡ [])) ⊎ ((run.returned ≡ true) × (left ≢ [])))
