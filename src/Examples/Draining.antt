-- ===== src/Examples/Draining.antt =====
-- A drain that a failing query cuts short.
use solana_smart_tx.Base.{◌≡◌, refl, List, [], ◌∷◌}
use solana_smart_tx.Base.Text.{codes}
use solana_smart_tx.Base.Result.{err, ok}
use solana_smart_tx.Orchestrator.Drain.{
  Query, all_terminal, count_status, count_all, drain_to_terminal,
}
use solana_smart_tx.Orchestrator.Drains.{Drains, drain_to_terminal-Drains}

abbrev busy : Query
busy = record { rows = ok (("Submitted", 2) ∷ ("Finalized", 5) ∷ []); now = 10 }

abbrev locked : Query
locked = record { rows = err (codes "database is locked"); now = 12 }

abbrev queries : List Query
queries = busy ∷ locked ∷ busy ∷ []

cut_short : drain_to_terminal 100 queries ≡ record { queries = 2; end = all_terminal }
unfolding drain_to_terminal count_all count_status
cut_short = refl

drain_to_terminal-Drains_example : Drains 100 queries (drain_to_terminal 100 queries)
drain_to_terminal-Drains_example = drain_to_terminal-Drains 100 queries
