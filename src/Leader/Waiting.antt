-- ===== src/Leader/Waiting.antt =====
-- What `wait_for_window` resolves with.
use solana_smart_tx.Base.{
  ℕ, ◌<◌, ◌≤◌, ◌≡◌, refl, ◌⊎◌, inl, inr, Option, none, some, List, [], ◌∷◌, ◌++◌, ap, arith,
}
use solana_smart_tx.Base.Tests.{nat_eq, Bool-cases}
use solana_smart_tx.Base.Lists.{All}
use solana_smart_tx.Leader.Window.{
  WindowResult, unhealthy, window, window_panicked, is_open, wait_for_window,
}

-- A check that does not end the wait: a window that is not 1 to `threshold` slots ahead.
abbrev IsClosed : ℕ → WindowResult → Type 0
IsClosed threshold (window w) = (w.slots_until ≡ 0) ⊎ (threshold < w.slots_until)
IsClosed threshold other = ⊥

-- A check that ends it.
abbrev Ends : ℕ → WindowResult → Type 0
Ends threshold (window w) = (1 ≤ w.slots_until) × (w.slots_until ≤ threshold)
Ends threshold other = Unit {0}

abbrev pub Waited : ℕ → List WindowResult → Option WindowResult → Type 0
Waited threshold checks none = All (IsClosed threshold) checks
Waited threshold checks (some r) =
    (before : List WindowResult) × (after : List WindowResult) × (checks ≡ before ++ r ∷ after)
    × All (IsClosed threshold) before
    × Ends threshold r

Waited-later :
    (threshold : ℕ) (c : WindowResult) (checks : List WindowResult) (o : Option WindowResult)
    → IsClosed threshold c
    → Waited threshold checks o
    → Waited threshold (c ∷ checks) o
Waited-later threshold c checks none closed w = (closed, w)
Waited-later threshold c checks (some r) closed (before, after, e, all, ends) =
    (c ∷ before, after, ap (λ l. c ∷ l) e, (closed, all), ends)

-- The wait resolves with the first check that is an error or a window 1 to `threshold` slots ahead of
-- its leader; it goes on exactly through windows that are not.
pub wait_for_window-Waited :
    (threshold : ℕ) (checks : List WindowResult)
    → Waited threshold checks (wait_for_window threshold checks)
unfolding wait_for_window is_open
wait_for_window-Waited threshold [] = tt
wait_for_window-Waited threshold (unhealthy e ∷ checks) = ([], checks, refl, tt, tt)
wait_for_window-Waited threshold (window_panicked ∷ checks) = ([], checks, refl, tt, tt)
wait_for_window-Waited threshold (window w ∷ checks) = elim (Bool-cases (is_open threshold w)) [
  | inl o ↦ rw o ([], checks, refl, tt, (ground arith, ground arith))
  | inr c ↦ rw c (
      Waited-later threshold (window w) checks (wait_for_window threshold checks) (ground arith)
        (wait_for_window-Waited threshold checks))
]
