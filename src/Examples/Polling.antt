-- ===== src/Examples/Polling.antt =====
-- A poll of a tracked bundle: pending five times, then no answer, then landed.
use solana_smart_tx.Base.{ℕ, List, [], ◌∷◌}
use solana_smart_tx.Base.Tests.{nat_eq}
use solana_smart_tx.Base.Result.{err, ok}
use solana_smart_tx.Submitter.Status.{BundleStatus, pending, landed, no_detail}
use solana_smart_tx.Orchestrator.Poll.{Poll}

abbrev says : BundleStatus → ℕ → Poll
says status elapsed = record {
  reply = ok (record { bundle_id = "b1"; status = status; detail = no_detail });
  elapsed = elapsed;
}

abbrev silent : ℕ → Poll
silent elapsed = record { reply = err []; elapsed = elapsed }

abbrev polls : List Poll
polls =
    says pending 200
    ∷ says pending 5400
    ∷ says pending 10600
    ∷ says pending 15800
    ∷ silent 21000
    ∷ silent 26200
    ∷ says landed 31300
    ∷ []
