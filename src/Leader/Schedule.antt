-- ===== src/Leader/Schedule.antt =====
-- crates/leader/src/lib.rs: `next_jito_leader`.
use Prim.Native.Nat.{max}
use solana_smart_tx.Base.{
  ℕ, zero, suc, ◌+◌, ◌-◌, ◌%◌, Bool, true, false, Option, none, some, List, [], ◌∷◌,
}
use solana_smart_tx.Base.Tests.{ltb, if◌then◌else◌}
use solana_smart_tx.Base.Lists.{length, contains}

abbrev leader_slots_per_group : ℕ
leader_slots_per_group = 4

-- The result of the search; `panicked` is an index out of range.
pub data Search : Type 0 where
  found : (slot leader : ℕ) → Search
  exhausted panicked out_of_fuel : Search

-- `leaders[i]`.
unfoldable pub nth : List ℕ → ℕ → Option ℕ
nth [] i = none
nth (x ∷ xs) zero = some x
nth (x ∷ xs) (suc i) = nth xs i

abbrev pub is_empty : List ℕ → Bool
is_empty [] = true
is_empty (x ∷ xs) = false

-- The first boundary of a group after the slot.
abbrev pub next_group_start : ℕ → ℕ
next_group_start slot = slot - slot % leader_slots_per_group + leader_slots_per_group

module _ (start_slot : ℕ) (leaders jito : List ℕ) where
  -- `while slot < end`, on fuel.
  unfoldable pub search : ℕ → ℕ → Search
  unfolding nth contains
  search zero slot = out_of_fuel
  search (suc fuel) slot =
      let rest = search fuel (slot + leader_slots_per_group) in
      if ltb slot (start_slot + length leaders)
      then elim (nth leaders (slot - start_slot)) [
        | none ↦ panicked
        | some leader ↦ if contains leader jito then found slot leader else rest
      ]
      else exhausted

  unfoldable pub next_jito_leader : ℕ → Search
  unfolding search
  next_jito_leader current_slot =
      if is_empty leaders
      then exhausted
      else search (suc (length leaders)) (max (next_group_start current_slot) start_slot)
