-- ===== src/Examples/Submitting.antt =====
-- The submitter: tests, and instances of its theorems.
use solana_smart_tx.Base.{ℕ, ◌+◌, ◌*◌, ◌≤◌, ◌/◌, ◌^◌, ◌≡◌, refl, [], ◌∷◌}
use solana_smart_tx.Submitter.Limiter.{
  high, low, calling, registered, cleared, reserved, acquire_step, waiting, admitted, max, limiter,
  System, call, act, Reach, fresh, later,
}
use solana_smart_tx.Submitter.Pace.{total, is_admitted, is_pending, Spaced}
use solana_smart_tx.Submitter.Paced.{Started, Reach-Paced}
use solana_smart_tx.Submitter.Pace.{due, holds}
use solana_smart_tx.Base.Lists.{All}

-- One request per second, from time 5. A low caller sees no high one pending; a high one registers;
-- then the low one reserves first, and the high one a second later.
abbrev overtaken : System
overtaken = record {
  limiter = record { interval = 1_000_000_000; next_at = 2_000_000_005; high_pending = 1 };
  clock = 5;
  callers = reserved high 1_000_000_005 ∷ admitted 5 ∷ [];
  starts = 1_000_000_005 ∷ 5 ∷ [];
}

Reach-overtaken : Reach 1 5 overtaken
unfolding limiter acquire_step
Reach-overtaken =
    later
      (later
        (later
          (later
            (later
              (later (later (later fresh (call low refl)) (act [] (calling low) [] refl refl))
                (call high refl))
              (act [] (calling high) (cleared ∷ []) refl refl))
            (act (registered ∷ []) cleared [] refl refl))
          (act (registered ∷ []) (reserved low 5) [] refl refl))
        (act (registered ∷ []) (waiting 5) [] refl refl))
      (act [] registered (admitted 5 ∷ []) refl refl)

Reach-Paced_example :
    (overtaken.limiter.interval ≡ 10 ^ 9 / max 1 1)
    × Spaced overtaken.limiter.interval 5 overtaken.starts
    × All (Started overtaken.clock) overtaken.callers
    × ((t : ℕ) → due t overtaken.starts ≡ total (holds t) overtaken.callers)
    × (5 + total is_admitted overtaken.callers * overtaken.limiter.interval
        ≤ overtaken.clock + overtaken.limiter.interval)
    × (overtaken.limiter.high_pending ≡ total is_pending overtaken.callers)
Reach-Paced_example = Reach-Paced Reach-overtaken
