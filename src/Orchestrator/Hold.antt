-- ===== src/Orchestrator/Hold.antt =====
-- crates/orchestrator/src/app.rs: `wait_slots`, over the readings of the slot clock so far; between two
-- of them it sleeps half a slot.
use solana_smart_tx.Base.{ℕ, Bool, true, false, ◌||◌, List, [], ◌∷◌}
use solana_smart_tx.Base.Tests.{nat_eq, ◌==◌, ltb, if◌then◌else◌}
use solana_smart_tx.Orchestrator.Plan.{saturating_add}

-- Whether a reading has reached the target.
unfoldable pub waits_until : (target : ℕ) → List ℕ → Bool
waits_until target [] = false
waits_until target (slot ∷ clock) =
    let later = waits_until target clock in if ltb slot target then later else true

-- Whether the wait has ended with these readings; the first one gives the target.
unfoldable pub wait_slots : (n : ℕ) → List ℕ → Bool
unfolding waits_until
wait_slots n [] = n == 0
wait_slots n (now ∷ clock) = n == 0 || waits_until (saturating_add now n) clock
