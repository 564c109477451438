-- ===== src/Leader/Ticks.antt =====
-- Where the slot clock stands after a sequence of stream events.
use solana_smart_tx.Base.{
  ℕ, ◌≤◌, ◌≡◌, refl, ◌⊎◌, inl, inr, true, Option, none, some, List, [], ◌∷◌, arith,
}
use solana_smart_tx.Base.Tests.{nat_eq, ltb, Bool-cases}
use solana_smart_tx.Base.Lists.{contains}
use solana_smart_tx.Stream.Types.{SlotStatus, StreamEvent, slot_event, tx_status}
use solana_smart_tx.Leader.Types.{LeaderState}
use solana_smart_tx.Leader.Clock.{later_slot, ticked, tick_if, ingest, ingest_loop}

abbrev slots_if : SlotStatus → ℕ → List ℕ → List ℕ
slots_if SlotStatus.processed slot l = slot ∷ l
slots_if other slot l = l

-- The slots of the processed updates.
abbrev pub processed_slots : List (StreamEvent × ℕ) → List ℕ
processed_slots [] = []
processed_slots ((slot_event s, now) ∷ events) =
    let rest = processed_slots events in slots_if s.status s.slot rest
processed_slots ((tx_status tx, now) ∷ events) = processed_slots events

abbrev slot_or : ℕ → Option ℕ → ℕ
slot_or d none = d
slot_or d (some s) = s

-- What a clock reads after the processed slots `l`: all of them were read or passed, and nothing else.
abbrev pub ClockAfter : Option ℕ → List ℕ → Option ℕ → Type 0
ClockAfter before l after =
    ((slot : ℕ) → contains slot l ≡ true → slot ≤ slot_or 0 after)
    × (slot_or 0 before ≤ slot_or 0 after)
    × ((after ≡ before) ⊎ ((s : ℕ) × (after ≡ some s) × (contains s l ≡ true)))

after_later :
    (before : Option ℕ) (slot : ℕ) (l : List ℕ) (after : Option ℕ)
    → ClockAfter (some (later_slot before slot)) l after
    → ClockAfter before (slot ∷ l) after
unfolding contains
after_later none slot l after (reached, grows, inl same) =
    ((λ s h. ground (arith, reached s)), omega arith, inr (slot, same, ground arith))
after_later none slot l after (reached, grows, inr (s, at, there)) =
    ((λ s h. ground (arith, reached s)), omega arith, inr (s, at, ground arith))
after_later (some b) slot l after (reached, grows, inl same) = (
  (λ s h. ground (arith, reached s)),
  omega arith,
  elim (Bool-cases (ltb b slot)) [
    | inl up ↦ inr (slot, ground arith, ground arith)
    | inr kept ↦ inl (ground arith)
  ],
)
after_later (some b) slot l after (reached, grows, inr (s, at, there)) =
    ((λ s h. ground (arith, reached s)), omega arith, inr (s, at, ground arith))

tick_if-ClockAfter :
    (status : SlotStatus) (t : LeaderState) (slot now : ℕ) (l : List ℕ)
    (rest : LeaderState → LeaderState)
    → ((u : LeaderState) → ClockAfter u.clock.slot l (rest u).clock.slot)
    → ClockAfter t.clock.slot (slots_if status slot l) (rest (tick_if status t slot now)).clock.slot
tick_if-ClockAfter SlotStatus.processed t slot now l rest h =
    after_later t.clock.slot slot l (rest (ticked t slot now)).clock.slot (h (ticked t slot now))
tick_if-ClockAfter SlotStatus.confirmed t slot now l rest h = h t
tick_if-ClockAfter SlotStatus.finalized t slot now l rest h = h t
tick_if-ClockAfter SlotStatus.first_shred_received t slot now l rest h = h t
tick_if-ClockAfter SlotStatus.completed t slot now l rest h = h t
tick_if-ClockAfter SlotStatus.created_bank t slot now l rest h = h t
tick_if-ClockAfter SlotStatus.dead t slot now l rest h = h t

-- However its events are ordered or repeated, the stream leaves the slot clock at the highest
-- processed slot that it has brought, or where the clock was if that is higher or there is none; no
-- other event moves the clock.
pub ingest_loop-ClockAfter :
    (events : List (StreamEvent × ℕ)) (t : LeaderState)
    → ClockAfter t.clock.slot (processed_slots events) (ingest_loop t events).clock.slot
unfolding ingest_loop ingest contains
ingest_loop-ClockAfter [] t = ((λ slot h. ground arith), omega arith, inl refl)
ingest_loop-ClockAfter ((slot_event s, now) ∷ events) t =
    tick_if-ClockAfter s.status t s.slot now (processed_slots events) (λ u. ingest_loop u events)
      (ingest_loop-ClockAfter events)
ingest_loop-ClockAfter ((tx_status tx, now) ∷ events) t = ingest_loop-ClockAfter events t
