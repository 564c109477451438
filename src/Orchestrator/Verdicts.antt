-- ===== src/Orchestrator/Verdicts.antt =====
-- What the status poll leaves in the tracker, and when it ends.
use solana_smart_tx.Base.{ℕ, ◌≤◌, ◌≡◌, ◌≢◌, true, Option, some, List, [], ◌∷◌}
use solana_smart_tx.Base.Tests.{nat_eq}
use solana_smart_tx.Base.Lists.{length, take}
use solana_smart_tx.Base.Map.{get}
use solana_smart_tx.Base.Text.{Text, codes}
use solana_smart_tx.Base.Result.{Result, err, ok}
use solana_smart_tx.Lifecycle.Types.{Pending}
use solana_smart_tx.Lifecycle.Tracker.{Tracker, record_jito_status}
use solana_smart_tx.Submitter.Status.{BundleStatusReport, is_terminal, status_str}
use solana_smart_tx.Orchestrator.Poll.{
  bundle_status_budget, Poll, PollEnd, terminal, budget_elapsed, still_polling, Polled,
}

abbrev note : Result BundleStatusReport → Option Text → Option Text
note (err e) old = old
note (ok report) old = some (codes (status_str report.status))

-- The last status among the replies, or the one from before.
abbrev pub last_status : List Poll → Option Text → Option Text
last_status [] old = old
last_status (p ∷ l) old = last_status l (note p.reply old)

abbrev pub noted : Option Text → Pending → Pending
noted status p = record p { jito_inflight = status }

abbrev pub last_elapsed : List Poll → ℕ → ℕ
last_elapsed [] old = old
last_elapsed (p ∷ l) old = last_elapsed l p.elapsed

abbrev pub EndsAs :
    PollEnd → (verdict : Option Text) → (elapsed : ℕ) → (all_polls : Type 0) → Type 0
EndsAs (terminal st) verdict elapsed all_polls =
    (verdict ≡ some (codes (status_str st))) × (is_terminal st ≡ true)
EndsAs budget_elapsed verdict elapsed all_polls = bundle_status_budget ≤ elapsed
EndsAs still_polling verdict elapsed all_polls = all_polls

-- A run over `polls` of a tracker in which the bundle is tracked as `p`.
pub record Reports (id : ℕ) (polls : List Poll) (t : Tracker) (p : Pending) (e0 : ℕ) (r : Polled)
    : Type 0 where
  pub verdict :
      get id r.tracker.inner.pending
      ≡ some (noted (last_status (take r.polls polls) p.jito_inflight) p)
  pub others : (j : ℕ) → j ≢ id → get j r.tracker.inner.pending ≡ get j t.inner.pending
  pub ends :
      EndsAs r.end
        (last_status (take r.polls polls) p.jito_inflight)
        (last_elapsed (take r.polls polls) e0)
        (r.polls ≡ length polls)

-- The tracker after one reply.
abbrev after_note : (id : ℕ) → Result BundleStatusReport → Tracker → Tracker
after_note id (err e) t = t
after_note id (ok report) t = record_jito_status t id (codes (status_str report.status))
