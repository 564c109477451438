-- ===== src/Orchestrator/Poll.antt =====
-- crates/orchestrator/src/app.rs: `spawn_bundle_status_poll`, over the sequence of its polls.
use solana_smart_tx.Base.{ℕ, suc, true, false, List, [], ◌∷◌}
use solana_smart_tx.Base.Tests.{leb}
use solana_smart_tx.Base.Text.{codes}
use solana_smart_tx.Base.Result.{Result, err, ok}
use solana_smart_tx.Lifecycle.Tracker.{Tracker, record_jito_status}
use solana_smart_tx.Submitter.Status.{BundleStatus, BundleStatusReport, is_terminal, status_str}

abbrev pub bundle_status_poll : ℕ
bundle_status_poll = 5000

abbrev pub bundle_status_budget : ℕ
bundle_status_budget = 30000

-- What a poll replied, and the milliseconds since the start at the check of the budget after it.
pub record Poll : Type 0 where
  pub reply : Result BundleStatusReport
  pub elapsed : ℕ

pub data PollEnd : Type 0 where
  terminal : BundleStatus → PollEnd
  budget_elapsed still_polling : PollEnd

-- The tracker, how the loop ended, and how many polls it made.
pub record Polled : Type 0 where
  pub tracker : Tracker
  pub end : PollEnd
  pub polls : ℕ

abbrev pub one_more : Polled → Polled
one_more r = record r { polls = suc r.polls }

abbrev pub stop_poll : Tracker → PollEnd → Polled
stop_poll t end = record { tracker = t; end = end; polls = 1 }

-- The check of the budget, and the rest of the loop.
abbrev pub check_budget : (elapsed : ℕ) → (Tracker → Polled) → Tracker → Polled
check_budget elapsed rest t = elim (leb bundle_status_budget elapsed) [
  | true ↦ stop_poll t budget_elapsed
  | false ↦ one_more (rest t)
]

abbrev pub after_reply :
    (bundle_db_id elapsed : ℕ) → Result BundleStatusReport → (Tracker → Polled) → Tracker → Polled
after_reply id elapsed (err e) rest t = check_budget elapsed rest t
after_reply id elapsed (ok report) rest t =
    let t' = record_jito_status t id (codes (status_str report.status)) in
    elim (is_terminal report.status) [
      | true ↦ stop_poll t' (terminal report.status)
      | false ↦ check_budget elapsed rest t'
    ]

unfoldable pub poll_loop : (bundle_db_id : ℕ) → List Poll → Tracker → Polled
poll_loop id [] t = record { tracker = t; end = still_polling; polls = 0 }
poll_loop id (p ∷ l) t = after_reply id p.elapsed p.reply (poll_loop id l) t
