-- ===== src/Stream/Client.antt =====
-- crates/stream/src/lib.rs: `run_connection` and the supervisor `run_inner`. What the network, the
-- clock and the channels do in one attempt to connect is a `Connection`.
use solana_smart_tx.Base.{
  ℕ, suc, ◌+◌, Bool, true, false, ◌&&◌, Option, none, some, List, [], ◌∷◌, ◌++◌,
}
use solana_smart_tx.Base.Tests.{ltb, leb, if◌then◌else◌}
use solana_smart_tx.Base.Int.{ℤ}
use solana_smart_tx.Stream.Types.{StreamEvent}
use solana_smart_tx.Stream.Forward.{
  TrySend, taken, full, closed, Send, ForwardResult, continues, consumer_gone, Forwarded, forward,
}
use solana_smart_tx.Stream.Decode.{SubscribeUpdate, Wire, decode}
use solana_smart_tx.Stream.Backoff.{Backoff, new, reset, next_delay}

abbrev pub backoff_base : ℕ
backoff_base = 250000000

abbrev pub backoff_cap : ℕ
backoff_cap = 30000000000

abbrev pub healthy_reset : ℕ
healthy_reset = 60000000000

-- What the receive loop's `select` yields: an update with the time and the event channel's answers, an
-- error, or the end. The ticks that report the dropped slots only log.
pub data Message : Type 0 where
  update : SubscribeUpdate → (now : ℤ) → TrySend → Send → Message
  stream_error stream_end report_tick : Message

-- Whether the steps of the setup succeed, how long the attempt or the connection lasts, the answer to a
-- reconnect signal, the messages, and the random draw for the delay after it.
pub record Connection : Type 0 where
  pub connected : Bool
  pub requested : Bool
  pub subscribed : Bool
  pub uptime : ℕ
  pub signal : TrySend
  pub messages : List Message
  pub jitter : ℕ → ℕ

pub data ConnEnd : Type 0 where
  server_closed disconnected gone : ConnEnd

-- The events that were taken, the counter, and the end; `none` while the connection is live.
pub record Received : Type 0 where
  pub events : List StreamEvent
  pub dropped_slots : ℕ
  pub end : Option ConnEnd

-- With the reconnect signals that were taken.
pub record Ran : Type 0 where
  pub received : Received
  pub signals : List ℕ

abbrev pub after_forward : Forwarded → ForwardResult → (ℕ → Received) → Received
after_forward f consumer_gone later = record {
  events = f.events;
  dropped_slots = f.dropped_slots;
  end = some gone;
}
after_forward f continues later =
    let r = later f.dropped_slots in
    record { events = f.events ++ r.events; dropped_slots = r.dropped_slots; end = r.end }

abbrev pub nothing : Option ConnEnd → ℕ → Received
nothing end dropped = record { events = []; dropped_slots = dropped; end = end }

abbrev pub established : Connection → Bool
established c = c.connected && (c.requested && c.subscribed)

-- A signal of an attempt after the first.
abbrev pub reconnect_signal : (attempt : ℕ) → TrySend → List ℕ
reconnect_signal attempt taken = if ltb 1 attempt then attempt ∷ [] else []
reconnect_signal attempt full = []
reconnect_signal attempt closed = []

-- What the supervisor keeps between the attempts.
pub record Supervisor : Type 0 where
  pub backoff : Backoff
  pub dropped_slots : ℕ
  pub attempt : ℕ

-- What the supervisor has done: how many attempts it made, what the channels took, the delays it slept,
-- and whether it returned.
pub record Supervised : Type 0 where
  pub attempts : ℕ
  pub events : List StreamEvent
  pub dropped_slots : ℕ
  pub signals : List ℕ
  pub delays : List ℕ
  pub returned : Bool

abbrev pub healthy_or_not : (uptime : ℕ) → Backoff → Backoff
healthy_or_not uptime b = if leb healthy_reset uptime then reset b else b

module _ (wire : Wire) where
  unfoldable pub receive : List Message → ℕ → Received
  unfolding forward decode
  receive [] dropped = nothing none dropped
  receive (update u now try_reply reply ∷ l) dropped =
      let f = forward (decode wire u now) try_reply reply dropped in
      after_forward f f.result (receive l)
  receive (stream_error ∷ l) dropped = nothing (some disconnected) dropped
  receive (stream_end ∷ l) dropped = nothing (some server_closed) dropped
  receive (report_tick ∷ l) dropped = receive l dropped

  abbrev pub run_setup : Bool → Connection → (attempt : ℕ) → ℕ → Ran
  run_setup false c attempt dropped = record {
    received = nothing (some disconnected) dropped;
    signals = [];
  }
  run_setup true c attempt dropped = record {
    received = receive c.messages dropped;
    signals = reconnect_signal attempt c.signal;
  }

  unfoldable pub run_connection : Connection → (attempt : ℕ) → ℕ → Ran
  unfolding receive
  run_connection c attempt dropped = run_setup (established c) c attempt dropped

  abbrev pub stop_here : Ran → Bool → Supervised
  stop_here r returned = record {
    attempts = 1;
    events = r.received.events;
    dropped_slots = r.received.dropped_slots;
    signals = r.signals;
    delays = [];
    returned = returned;
  }

  abbrev pub next_supervisor : Connection → Supervisor → Ran → Supervisor
  next_supervisor c s r = record {
    backoff = (next_delay c.jitter (healthy_or_not c.uptime s.backoff)).1;
    dropped_slots = r.received.dropped_slots;
    attempt = s.attempt + 1;
  }

  -- A delay, then the next attempts.
  abbrev pub and_again : Connection → Supervisor → Ran → (Supervisor → Supervised) → Supervised
  and_again c s r later =
      let rest = later (next_supervisor c s r) in
      record {
        attempts = suc rest.attempts;
        events = r.received.events ++ rest.events;
        dropped_slots = rest.dropped_slots;
        signals = r.signals ++ rest.signals;
        delays = (next_delay c.jitter (healthy_or_not c.uptime s.backoff)).0 ∷ rest.delays;
        returned = rest.returned;
      }

  abbrev pub after_connection :
      Connection → Supervisor → Ran → Option ConnEnd → (Supervisor → Supervised) → Supervised
  after_connection c s r none later = stop_here r false
  after_connection c s r (some gone) later = stop_here r true
  after_connection c s r (some server_closed) later = and_again c s r later
  after_connection c s r (some disconnected) later = and_again c s r later

  -- `run_inner`'s loop, over the attempts that there is time for.
  unfoldable pub supervise : List Connection → Supervisor → Supervised
  unfolding run_connection next_delay
  supervise [] s = record {
    attempts = 0;
    events = [];
    dropped_slots = s.dropped_slots;
    signals = [];
    delays = [];
    returned = false;
  }
  supervise (c ∷ l) s =
      let r = run_connection c (s.attempt + 1) s.dropped_slots in
      after_connection c s r r.received.end (supervise l)

  abbrev pub initial : Supervisor
  initial = record { backoff = new backoff_base backoff_cap; dropped_slots = 0; attempt = 0 }

  unfoldable pub run_inner : List Connection → Supervised
  unfolding supervise
  run_inner l = supervise l initial
