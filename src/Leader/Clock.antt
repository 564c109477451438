-- ===== src/Leader/Clock.antt =====
-- crates/leader/src/lib.rs: `ingest`, and the refreshes of the cached inputs.
use Prim.Native.Nat.{max}
use solana_smart_tx.Base.{ℕ, Option, none, some, List, [], ◌∷◌}
use solana_smart_tx.Stream.Types.{SlotStatus, StreamEvent, slot_event, tx_status}
use solana_smart_tx.Leader.Types.{ValidatorSets, LeaderState}

abbrev pub later_slot : Option ℕ → ℕ → ℕ
later_slot none slot = slot
later_slot (some s) slot = max s slot

-- The clock after a processed slot at the time `now`.
abbrev pub ticked : LeaderState → ℕ → ℕ → LeaderState
ticked t slot now = record t {
  clock = record { slot = some (later_slot t.clock.slot slot); updated_at = some now };
}

abbrev pub tick_if : SlotStatus → LeaderState → ℕ → ℕ → LeaderState
tick_if SlotStatus.processed t slot now = ticked t slot now
tick_if other t slot now = t

-- `LeaderTracker::ingest`.
unfoldable pub ingest : LeaderState → StreamEvent → ℕ → LeaderState
ingest t (slot_event s) now = tick_if s.status t s.slot now
ingest t (tx_status tx) now = t

-- `ingest_loop`: the events of the channel, each with the time at which it is taken.
unfoldable pub ingest_loop : LeaderState → List (StreamEvent × ℕ) → LeaderState
unfolding ingest
ingest_loop t [] = t
ingest_loop t ((event, now) ∷ events) = ingest_loop (ingest t event now) events

-- `refresh_jito`, given what the data source answers; `none` is an error that changes nothing.
unfoldable pub refresh_jito : LeaderState → Option ValidatorSets → ℕ → LeaderState
refresh_jito t none now = t
refresh_jito t (some sets) now = record t { jito = some (record { sets = sets; fetched_at = now }) }

abbrev scheduled : LeaderState → ℕ → Option (List ℕ) → ℕ → LeaderState
scheduled t start none now = t
scheduled t start (some leaders) now = record t {
  schedule = some (record { start_slot = start; leaders = leaders; fetched_at = now });
}

-- `refresh_schedule`, given the source's answer for a start slot and a limit.
unfoldable refresh_schedule : LeaderState → (ℕ → ℕ → Option (List ℕ)) → ℕ → LeaderState
refresh_schedule t fetch_slot_leaders now = elim t.clock.slot [
  | none ↦ t
  | some start ↦ scheduled t start (fetch_slot_leaders start t.config.lookahead_slots) now
]
