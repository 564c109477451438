-- ===== src/Orchestrator/Budget.antt =====
-- That the status poll ends, by the budget at the latest.
use solana_smart_tx.Base.{ℕ, ◌+◌, ◌*◌, ◌≤◌, ◌≡◌, ◌<◌, ◌⊎◌, inl, inr, false, List, [], ◌∷◌, arith}
use solana_smart_tx.Base.Tests.{nat_eq, leb, Bool-cases}
use solana_smart_tx.Base.Lists.{length}
use solana_smart_tx.Base.Text.{codes}
use solana_smart_tx.Base.Result.{Result, err, ok}
use solana_smart_tx.Lifecycle.Tracker.{Tracker, record_jito_status}
use solana_smart_tx.Submitter.Status.{BundleStatusReport, is_terminal, status_str}
use solana_smart_tx.Orchestrator.Poll.{
  bundle_status_poll, bundle_status_budget, Poll, PollEnd, terminal, budget_elapsed, still_polling,
  Polled, check_budget, after_reply, poll_loop,
}

-- Each check of the budget is at least the sleep after the one before.
abbrev pub Paced : ℕ → List Poll → Type 0
Paced from [] = Unit
Paced from (p ∷ l) = (from ≤ p.elapsed) × Paced (p.elapsed + bundle_status_poll) l

-- Enough polls exhaust the budget.
abbrev pub Over : PollEnd → Type 0
Over (terminal st) = Unit
Over budget_elapsed = Unit
Over still_polling = ⊥

stop_check :
    (elapsed : ℕ) (rest : Tracker → Polled) (t : Tracker)
    → (bundle_status_budget ≤ elapsed) ⊎ Over (rest t).end
    → Over (check_budget elapsed rest t).end
stop_check elapsed rest t h = elim (Bool-cases (leb bundle_status_budget elapsed)) [
  | inl e ↦ rw (e, check_budget) tt
  | inr e ↦ rw (e, check_budget) (later e h)
]
  where
    later :
        leb bundle_status_budget elapsed ≡ false
        → (bundle_status_budget ≤ elapsed) ⊎ Over (rest t).end
        → Over (rest t).end
    later e (inl le) = absurd (ground arith)
    later e (inr o) = o

stop_reply :
    (id elapsed : ℕ) (reply : Result BundleStatusReport) (rest : Tracker → Polled) (t : Tracker)
    → (bundle_status_budget ≤ elapsed) ⊎ ((u : Tracker) → Over (rest u).end)
    → Over (after_reply id elapsed reply rest t).end
stop_reply id elapsed (err e) rest t h = stop_check elapsed rest t (at t h)
  where
    at :
        (u : Tracker)
        → (bundle_status_budget ≤ elapsed) ⊎ ((v : Tracker) → Over (rest v).end)
        → (bundle_status_budget ≤ elapsed) ⊎ Over (rest u).end
    at u (inl le) = inl le
    at u (inr all) = inr (all u)
stop_reply id elapsed (ok report) rest t h = elim (Bool-cases (is_terminal report.status)) [
  | inl done ↦ rw (done, after_reply) tt
  | inr more ↦
      rw (more, after_reply)
        (stop_check elapsed rest (record_jito_status t id (codes (status_str report.status)))
          (at h))
]
  where
    at :
        (bundle_status_budget ≤ elapsed) ⊎ ((v : Tracker) → Over (rest v).end)
        → (bundle_status_budget ≤ elapsed)
          ⊎ Over (rest (record_jito_status t id (codes (status_str report.status)))).end
    at (inl le) = inl le
    at (inr all) = inr (all _)

pub poll_loop-Over :
    (id from : ℕ) (polls : List Poll) (t : Tracker)
    → Paced from polls
    → bundle_status_budget + bundle_status_poll ≤ from + length polls * bundle_status_poll
    → 0 < length polls
    → Over (poll_loop id polls t).end
unfolding poll_loop
poll_loop-Over id from [] t paced enough some_left = absurd (omega arith)
poll_loop-Over id from (q ∷ []) t paced enough some_left =
    stop_reply id q.elapsed q.reply (poll_loop id []) t (inl (omega (arith, paced)))
poll_loop-Over id from (q ∷ r ∷ l) t paced enough some_left =
    stop_reply id q.elapsed q.reply (poll_loop id (r ∷ l)) t (
      inr (λ u.
        poll_loop-Over id (q.elapsed + bundle_status_poll) (r ∷ l) u paced.1
          (omega (arith, paced.0, enough)) (omega arith)))
