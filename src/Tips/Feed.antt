-- ===== src/Tips/Feed.antt =====
-- crates/tips/src/lib.rs: `run` and `rest_poll_during`, from what `parse_payload` makes of each text. What
-- the WebSocket and the REST endpoint deliver, the clock and the random draw are given with each round.
use Prim.Native.Nat.{min}
use solana_smart_tx.Base.{ℕ, ◌+◌, ◌-◌, Bool, true, false, ◌&&◌, Option, List, [], ◌∷◌}
use solana_smart_tx.Base.Tests.{leb, if◌then◌else◌}
use solana_smart_tx.Base.Result.{Result, err, ok}
use solana_smart_tx.Stream.Backoff.{Backoff, reset, next_delay}
use solana_smart_tx.Tips.Types.{TipSnapshot}
use solana_smart_tx.Tips.Tracker.{TipState, web_socket, rest, ingest}

-- `TipConfig`, as far as the feed reads it.
pub record FeedConfig : Type 0 where
  pub history_capacity : ℕ
  pub rest_poll_interval : ℕ
  pub healthy_reset : ℕ

-- A poll of the REST endpoint, and the time after it.
pub record RestPoll : Type 0 where
  pub reply : Result (Option TipSnapshot)
  pub now : ℕ

-- One connection of the WebSocket, then the polls while it is down.
pub record Round : Type 0 where
  pub frames : List (Option TipSnapshot)
  pub uptime : ℕ
  pub jitter : ℕ → ℕ
  pub down_at : ℕ
  pub polls : List RestPoll

-- The state, the naps between the polls, and whether the deadline was reached.
pub record Polled : Type 0 where
  pub state : TipState
  pub naps : List ℕ
  pub done : Bool

-- The state and the schedule, the delays, and whether every round came to its end.
pub record Fed : Type 0 where
  pub state : TipState
  pub backoff : Backoff
  pub delays : List ℕ

abbrev pub got_any : List (Option TipSnapshot) → Bool
got_any [] = false
got_any (f ∷ l) = true

module _ (cfg : FeedConfig) where
  unfoldable pub ingest_frames : List (Option TipSnapshot) → TipState → TipState
  unfolding ingest
  ingest_frames [] state = state
  ingest_frames (f ∷ l) state = ingest_frames l (ingest cfg.history_capacity state f web_socket)

  abbrev pub ingest_reply : Result (Option TipSnapshot) → TipState → TipState
  ingest_reply (err e) state = state
  ingest_reply (ok text) state = ingest cfg.history_capacity state text rest

  abbrev pub nap_before : (nap : ℕ) → Polled → Polled
  nap_before nap p = record p { naps = nap ∷ p.naps }

  unfoldable pub rest_poll_during : (deadline : ℕ) → List RestPoll → TipState → Polled
  unfolding ingest
  rest_poll_during deadline [] state = record { state = state; naps = []; done = false }
  rest_poll_during deadline (p ∷ l) state =
      let state' = ingest_reply p.reply state in
      let later = rest_poll_during deadline l state' in
      if leb deadline p.now
      then record { state = state'; naps = []; done = true }
      else nap_before (min (deadline - p.now) cfg.rest_poll_interval) later

  -- The schedule is reset only after a connection that delivered and lasted.
  abbrev pub backoff_after : Round → Backoff → Backoff
  backoff_after r b = if got_any r.frames && leb cfg.healthy_reset r.uptime then reset b else b

  abbrev pub delay_after : Fed → ℕ → Fed
  delay_after f delay = record f { delays = delay ∷ f.delays }

  unfoldable pub run : List Round → TipState → Backoff → Fed
  unfolding ingest_frames next_delay rest_poll_during
  run [] state backoff = record { state = state; backoff = backoff; delays = [] }
  run (r ∷ l) state backoff =
      let state' = ingest_frames r.frames state in
      let (delay, backoff') = next_delay r.jitter (backoff_after r backoff) in
      delay_after (run l (rest_poll_during (r.down_at + delay) r.polls state').state backoff') delay
