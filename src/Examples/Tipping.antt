-- ===== src/Examples/Tipping.antt =====
-- A feed of two connections, with polls in between.
use solana_smart_tx.Base.{ℕ, ◌≡◌, refl, none, some, List, [], ◌∷◌, ◌++◌}
use solana_smart_tx.Base.Text.{codes}
use solana_smart_tx.Base.Result.{err, ok}
use solana_smart_tx.Stream.Backoff.{new, next_delay, ceiling, scaled}
use solana_smart_tx.Tips.Types.{TipSnapshot}
use solana_smart_tx.Tips.Tracker.{TipState, trim_history, store, ingest}
use solana_smart_tx.Tips.Feed.{FeedConfig, Round, ingest_frames, rest_poll_during, run}
use solana_smart_tx.Base.{arith}
use solana_smart_tx.Tips.History.{Trimmed}
use solana_smart_tx.Tips.Fed.{delivered, run-Feeds}

abbrev tips_at : ℕ → TipSnapshot
tips_at t = record {
  taken_at = t;
  p25_lamports = 1000;
  p50_lamports = 5000;
  p75_lamports = 9000;
  p95_lamports = 20000;
  p99_lamports = 50000;
  ema_p50_lamports = 5000;
}

abbrev cfg : FeedConfig
cfg = record { history_capacity = 2; rest_poll_interval = 50; healthy_reset = 1000 }

abbrev rounds : List Round
rounds =
    record {
      frames = some (tips_at 1) ∷ none ∷ [];
      uptime = 20;
      jitter = λ d. d;
      down_at = 20;
      polls =
          record { reply = err (codes "503"); now = 30 }
          ∷ record { reply = ok (some (tips_at 90)); now = 90 }
          ∷ record { reply = ok (some (tips_at 150)); now = 150 }
          ∷ record { reply = ok (some (tips_at 160)); now = 160 }
          ∷ [];
    }
    ∷ []

abbrev empty : TipState
empty = record { history = []; last_source = none }

-- The deadline of 120 has passed at the third poll.
history_lem : (run cfg rounds empty (new 100 400)).state.history ≡ tips_at 90 ∷ tips_at 150 ∷ []
unfolding run ingest_frames rest_poll_during next_delay ceiling scaled ingest store trim_history
history_lem = refl

run-Feeds_example :
    Trimmed 2
      (empty.history ++ delivered cfg rounds (new 100 400))
      (run cfg rounds empty (new 100 400)).state.history
run-Feeds_example = run-Feeds cfg rounds empty (new 100 400) (omega arith)
