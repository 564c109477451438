-- ===== src/Leader/Window.antt =====
-- crates/leader/src/lib.rs: `current_window` and `wait_for_window`.
use solana_smart_tx.Base.{ℕ, ◌+◌, ◌-◌, Bool, ◌&&◌, ◌⊎◌, inl, inr, Option, none, some, List, [], ◌∷◌}
use solana_smart_tx.Base.Tests.{ltb, leb, if◌then◌else◌}
use solana_smart_tx.Base.Lists.{length, contains}
use solana_smart_tx.Leader.Types.{
  LeaderWindow, LeaderError, no_clock, clock_stale, no_schedule, schedule_stale, schedule_exhausted,
  no_jito_data, jito_stale, no_jito_leader_in_lookahead, ValidatorSets, LeaderSchedule, JitoSet,
  LeaderState,
}
use solana_smart_tx.Leader.Schedule.{
  Search, found, exhausted, panicked, out_of_fuel, next_jito_leader,
}

pub data WindowResult : Type 0 where
  unhealthy : LeaderError → WindowResult
  window : LeaderWindow → WindowResult
  window_panicked : WindowResult

-- The clock's slot, or what is wrong with it at the time `now`.
unfoldable pub read_clock : LeaderState → ℕ → LeaderError ⊎ ℕ
read_clock t now = elim t.clock.slot [
  | none ↦ inl no_clock
  | some slot ↦ elim t.clock.updated_at [
    | none ↦ inl no_clock
    | some at ↦ if ltb t.config.max_clock_staleness (now - at) then inl clock_stale else inr slot
  ]
]

unfoldable pub read_schedule : LeaderState → ℕ → ℕ → LeaderError ⊎ LeaderSchedule
read_schedule t now current_slot = elim t.schedule [
  | none ↦ inl no_schedule
  | some s ↦
      if ltb t.config.max_schedule_age (now - s.fetched_at)
      then inl schedule_stale
      else if leb (s.start_slot + length s.leaders) current_slot
      then inl schedule_exhausted
      else inr s
]

unfoldable pub read_jito : LeaderState → ℕ → LeaderError ⊎ JitoSet
read_jito t now = elim t.jito [
  | none ↦ inl no_jito_data
  | some j ↦ if ltb t.config.max_jito_age (now - j.fetched_at) then inl jito_stale else inr j
]

unfoldable pub window_of : ℕ → ValidatorSets → Search → WindowResult
window_of current_slot sets exhausted = unhealthy no_jito_leader_in_lookahead
window_of current_slot sets (found slot leader) = window (record {
  current_slot = current_slot;
  next_jito_leader_slot = slot;
  slots_until = slot - current_slot;
  leader_identity = some leader;
  is_bam = contains leader sets.bam;
})
window_of current_slot sets panicked = window_panicked
window_of current_slot sets out_of_fuel = window_panicked

abbrev pub with_jito_set : ℕ → LeaderSchedule → LeaderError ⊎ JitoSet → WindowResult
with_jito_set current_slot s (inl e) = unhealthy e
with_jito_set current_slot s (inr j) =
    window_of current_slot j.sets (next_jito_leader s.start_slot s.leaders j.sets.jito current_slot)

abbrev pub with_schedule : LeaderState → ℕ → ℕ → LeaderError ⊎ LeaderSchedule → WindowResult
with_schedule t jito_now current_slot (inl e) = unhealthy e
with_schedule t jito_now current_slot (inr s) = with_jito_set current_slot s (read_jito t jito_now)

abbrev pub with_clock : LeaderState → ℕ → ℕ → LeaderError ⊎ ℕ → WindowResult
with_clock t schedule_now jito_now (inl e) = unhealthy e
with_clock t schedule_now jito_now (inr current_slot) =
    with_schedule t jito_now current_slot (read_schedule t schedule_now current_slot)

-- `current_window`; the three times are those at which the three ages are taken.
unfoldable pub current_window : LeaderState → ℕ → ℕ → ℕ → WindowResult
unfolding read_clock read_schedule read_jito window_of
current_window t clock_now schedule_now jito_now =
    with_clock t schedule_now jito_now (read_clock t clock_now)

-- Whether `wait_for_window` resolves with the window.
unfoldable pub is_open : ℕ → LeaderWindow → Bool
is_open threshold w = leb 1 w.slots_until && leb w.slots_until threshold

-- `wait_for_window` over the results of its successive checks; `none` while it still waits.
unfoldable pub wait_for_window : ℕ → List WindowResult → Option WindowResult
unfolding is_open
wait_for_window threshold [] = none
wait_for_window threshold (unhealthy e ∷ checks) = some (unhealthy e)
wait_for_window threshold (window_panicked ∷ checks) = some window_panicked
wait_for_window threshold (window w ∷ checks) =
    let rest = wait_for_window threshold checks in
    if is_open threshold w then some (window w) else rest
