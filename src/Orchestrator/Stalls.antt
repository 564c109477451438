-- ===== src/Orchestrator/Stalls.antt =====
-- What a wait that has not ended says of the slot clock.
use Prim.Native.Nat.{min}
use solana_smart_tx.Base.{
  ℕ, ◌+◌, ◌-◌, ◌≤◌, ◌<◌, ◌≡◌, refl, ◌⊎◌, inl, inr, true, false, List, [], ◌∷◌, arith,
}
use solana_smart_tx.Base.Tests.{nat_eq, ◌==◌, ltb, Bool-cases}
use solana_smart_tx.Base.Int.{u64_bound}
use solana_smart_tx.Base.Lists.{All}
use solana_smart_tx.Orchestrator.Plan.{saturating_add}
use solana_smart_tx.Orchestrator.Hold.{waits_until, wait_slots}

-- Every reading after the first is still below it plus `n`, or below the largest `u64`.
abbrev pub StillBelow : (n : ℕ) → List ℕ → Type 0
StillBelow n clock =
    (1 ≤ n)
    × ((clock ≡ [])
        ⊎ ((now : ℕ) × (later : List ℕ) × (clock ≡ now ∷ later)
            × All (λ slot. slot < min (now + n) (u64_bound - 1)) later))

waits_until-All :
    (target : ℕ) (clock : List ℕ)
    → waits_until target clock ≡ false
    → All (λ slot. slot < target) clock
unfolding waits_until
waits_until-All target [] e = tt
waits_until-All target (slot ∷ clock) e = elim (Bool-cases (ltb slot target)) [
  | inl below ↦ (ground arith, waits_until-All target clock (ground arith))
  | inr reached ↦ absurd (ground arith)
]

pub wait_slots-StillBelow :
    (n : ℕ) (clock : List ℕ) → wait_slots n clock ≡ false → StillBelow n clock
unfolding wait_slots
wait_slots-StillBelow n [] e = (ground arith, inl refl)
wait_slots-StillBelow n (now ∷ clock) e = elim (Bool-cases (n == 0)) [
  | inl none ↦ absurd (ground arith)
  | inr some_slots ↦ (
    ground arith,
    inr (now, clock, refl, waits_until-All (saturating_add now n) clock (ground arith)),
  )
]

pub wait_slots-none : (clock : List ℕ) → wait_slots 0 clock ≡ true
unfolding wait_slots
wait_slots-none [] = refl
wait_slots-none (now ∷ clock) = refl
