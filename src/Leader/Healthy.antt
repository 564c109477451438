-- ===== src/Leader/Healthy.antt =====
-- What a window that `current_window` reports vouches for.
use Prim.Native.Nat.{max}
use solana_smart_tx.Base.{ℕ, ◌+◌, ◌-◌, ◌%◌, ◌<◌, ◌≤◌, ◌≡◌, refl, ◌⊎◌, inl, inr, true, some, arith}
use solana_smart_tx.Base.Tests.{nat_eq, ltb, leb, Bool-cases, Option-cases}
use solana_smart_tx.Base.Lists.{length, contains}
use solana_smart_tx.Leader.Types.{LeaderWindow, LeaderError, LeaderSchedule, JitoSet, LeaderState}
use solana_smart_tx.Leader.Schedule.{
  Search, found, exhausted, panicked, out_of_fuel, nth, next_group_start, next_jito_leader,
}
use solana_smart_tx.Leader.Ahead.{Answers, next_jito_leader-Answers}
use solana_smart_tx.Leader.Window.{
  WindowResult, unhealthy, window, window_panicked, read_clock, read_schedule, read_jito, window_of,
  with_jito_set, with_schedule, with_clock, current_window,
}

-- The window is that of a schedule and a validator set.
abbrev Targets : LeaderWindow → LeaderSchedule → JitoSet → Type 0
Targets w s j =
    (1 ≤ w.slots_until)
    × (w.current_slot + w.slots_until ≡ w.next_jito_leader_slot)
    × (s.start_slot ≤ w.current_slot → w.next_jito_leader_slot % 4 ≡ 0)
    × ((leader : ℕ) × (w.leader_identity ≡ some leader)
        × (nth s.leaders (w.next_jito_leader_slot - s.start_slot) ≡ some leader)
        × (contains leader j.sets.jito ≡ true)
        × (w.is_bam ≡ contains leader j.sets.bam))

-- What a result says of the state and the three times; an unhealthy one says nothing here.
abbrev pub Vouches : LeaderState → ℕ → ℕ → ℕ → WindowResult → Type 0
Vouches t clock_now schedule_now jito_now (unhealthy e) = Unit {0}
Vouches t clock_now schedule_now jito_now (window w) =
    (t.clock.slot ≡ some w.current_slot)
    × ((at : ℕ) × (t.clock.updated_at ≡ some at) × (clock_now - at ≤ t.config.max_clock_staleness))
    × ((s : LeaderSchedule) × (j : JitoSet) × (t.schedule ≡ some s)
        × (schedule_now - s.fetched_at ≤ t.config.max_schedule_age)
        × (t.jito ≡ some j)
        × (jito_now - j.fetched_at ≤ t.config.max_jito_age)
        × Targets w s j)
Vouches t clock_now schedule_now jito_now window_panicked = ⊥

window_of-Targets :
    (current_slot : ℕ) (s : LeaderSchedule) (j : JitoSet) (r : Search)
    → Answers s.start_slot s.leaders j.sets.jito
        (max (next_group_start current_slot) s.start_slot)
        r
    → ((slot leader : ℕ)
        → r ≡ found slot leader
        → (current_slot < slot)
          × (s.start_slot ≤ current_slot → slot % 4 ≡ 0)
          × (slot < s.start_slot + length s.leaders))
    → (P : WindowResult → Type 0) → ((e : LeaderError) → P (unhealthy e))
    → ((w : LeaderWindow) → w.current_slot ≡ current_slot → Targets w s j → P (window w))
    → P (window_of current_slot j.sets r)
unfolding window_of
window_of-Targets current_slot s j (found slot leader) answer ahead P bad good =
    let (k, at, leads, runs, before) = answer in
    let (later, aligned, within) = ahead slot leader refl in
    good _ refl (omega arith, omega arith, aligned, (leader, refl, leads, runs, refl))
window_of-Targets current_slot s j exhausted answer ahead P bad good = bad _
window_of-Targets current_slot s j panicked answer ahead P bad good = absurd answer
window_of-Targets current_slot s j out_of_fuel answer ahead P bad good = absurd answer

abbrev ClockOk : LeaderState → ℕ → LeaderError ⊎ ℕ → Type 0
ClockOk t now (inl e) = Unit {0}
ClockOk t now (inr slot) =
    (t.clock.slot ≡ some slot)
    × ((at : ℕ) × (t.clock.updated_at ≡ some at) × (now - at ≤ t.config.max_clock_staleness))

read_clock-ClockOk : (t : LeaderState) (now : ℕ) → ClockOk t now (read_clock t now)
unfolding read_clock
read_clock-ClockOk t now = elim (Option-cases t.clock.slot) [
  | inl e ↦ rw (e, read_clock) tt
  | inr (slot, e) ↦ elim (Option-cases t.clock.updated_at) [
    | inl e' ↦ rw (e, read_clock, e') tt
    | inr (at, e') ↦ elim (Bool-cases (ltb t.config.max_clock_staleness (now - at))) [
      | inl old ↦ rw (e, read_clock, e', old) tt
      | inr young ↦ rw (e, read_clock, e', young) (refl, (at, refl, ground arith))
    ]
  ]
]

abbrev ScheduleOk : LeaderState → ℕ → LeaderError ⊎ LeaderSchedule → Type 0
ScheduleOk t now (inl e) = Unit {0}
ScheduleOk t now (inr s) = (t.schedule ≡ some s) × (now - s.fetched_at ≤ t.config.max_schedule_age)

read_schedule-ScheduleOk :
    (t : LeaderState) (now slot : ℕ) → ScheduleOk t now (read_schedule t now slot)
unfolding read_schedule
read_schedule-ScheduleOk t now slot = elim (Option-cases t.schedule) [
  | inl e ↦ rw (e, read_schedule) tt
  | inr (s, e) ↦ elim (Bool-cases (ltb t.config.max_schedule_age (now - s.fetched_at))) [
    | inl old ↦ rw (e, read_schedule, old) tt
    | inr young ↦ elim (Bool-cases (leb (s.start_slot + length s.leaders) slot)) [
      | inl past ↦ rw (e, read_schedule, young, past) tt
      | inr within ↦ rw (e, read_schedule, young, within) (refl, ground arith)
    ]
  ]
]

abbrev JitoOk : LeaderState → ℕ → LeaderError ⊎ JitoSet → Type 0
JitoOk t now (inl e) = Unit {0}
JitoOk t now (inr j) = (t.jito ≡ some j) × (now - j.fetched_at ≤ t.config.max_jito_age)

read_jito-JitoOk : (t : LeaderState) (now : ℕ) → JitoOk t now (read_jito t now)
unfolding read_jito
read_jito-JitoOk t now = elim (Option-cases t.jito) [
  | inl e ↦ rw (e, read_jito) tt
  | inr (j, e) ↦ elim (Bool-cases (ltb t.config.max_jito_age (now - j.fetched_at))) [
    | inl old ↦ rw (e, read_jito, old) tt
    | inr young ↦ rw (e, read_jito, young) (refl, ground arith)
  ]
]

module _ (t : LeaderState) (clock_now schedule_now jito_now : ℕ) where
  with_jito_set-Vouches :
      (slot : ℕ) (s : LeaderSchedule) (r : LeaderError ⊎ JitoSet)
      → ClockOk t clock_now (inr slot)
      → ScheduleOk t schedule_now (inr s)
      → JitoOk t jito_now r
      → Vouches t clock_now schedule_now jito_now (with_jito_set slot s r)
  with_jito_set-Vouches slot s (inl e) clock schedule jito = tt
  with_jito_set-Vouches slot s (inr j) clock schedule jito =
      let (answer, ahead) = next_jito_leader-Answers s.start_slot s.leaders j.sets.jito slot in
      window_of-Targets slot s j (next_jito_leader s.start_slot s.leaders j.sets.jito slot) answer
        ahead (Vouches t clock_now schedule_now jito_now) (λ e. tt)
        λ w e target.
          (rw e clock.0, clock.1, (s, j, schedule.0, schedule.1, jito.0, jito.1, target))

  with_schedule-Vouches :
      (slot : ℕ) (r : LeaderError ⊎ LeaderSchedule)
      → ClockOk t clock_now (inr slot)
      → ScheduleOk t schedule_now r
      → Vouches t clock_now schedule_now jito_now (with_schedule t jito_now slot r)
  with_schedule-Vouches slot (inl e) clock schedule = tt
  with_schedule-Vouches slot (inr s) clock schedule =
      with_jito_set-Vouches slot s (read_jito t jito_now) clock schedule
        (read_jito-JitoOk t jito_now)

  with_clock-Vouches :
      (r : LeaderError ⊎ ℕ)
      → ClockOk t clock_now r
      → Vouches t clock_now schedule_now jito_now (with_clock t schedule_now jito_now r)
  with_clock-Vouches (inl e) clock = tt
  with_clock-Vouches (inr slot) clock =
      with_schedule-Vouches slot (read_schedule t schedule_now slot) clock
        (read_schedule-ScheduleOk t schedule_now slot)

-- A window is reported only while the slot clock, the schedule and the validator set are all there
-- and no older than their limits. It is for the clock's slot and targets a later slot, the distance
-- to which is `slots_until`, at least 1; that slot starts a group of four if the schedule does not
-- start after the clock; its leader is the schedule's, runs Jito, and runs BAM if `is_bam` says so.
-- The computation never indexes the schedule out of range.
pub current_window-Vouches :
    (t : LeaderState) (clock_now schedule_now jito_now : ℕ)
    → Vouches t clock_now schedule_now jito_now (current_window t clock_now schedule_now jito_now)
unfolding current_window
current_window-Vouches t clock_now schedule_now jito_now =
    with_clock-Vouches t clock_now schedule_now jito_now (read_clock t clock_now)
      (read_clock-ClockOk t clock_now)
