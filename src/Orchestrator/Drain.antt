-- ===== src/Orchestrator/Drain.antt =====
-- crates/orchestrator/src/app.rs: `run_status_counts` and `drain_to_terminal`. What a status query
-- returns, and the time after it, are given for each turn of the loop.
use solana_smart_tx.Base.{ℕ, ◌+◌, String, List, [], ◌∷◌}
use solana_smart_tx.Base.Tests.{nat_eq, string_eq, ◌==◌, leb, if◌then◌else◌}
use solana_smart_tx.Base.Result.{Result, err, ok}

pub record StatusCounts : Type 0 where
  pub submitted : ℕ
  pub processed : ℕ
  pub confirmed : ℕ
  pub finalized : ℕ
  pub failed : ℕ
  pub other : ℕ

abbrev pub no_counts : StatusCounts
no_counts = record {
  submitted = 0;
  processed = 0;
  confirmed = 0;
  finalized = 0;
  failed = 0;
  other = 0;
}

abbrev pub non_terminal : StatusCounts → ℕ
non_terminal c = c.submitted + c.processed + c.confirmed

unfoldable pub count_status : String → ℕ → StatusCounts → StatusCounts
count_status status n c =
    if status == "Submitted"
    then record c { submitted = n }
    else if status == "Processed"
    then record c { processed = n }
    else if status == "Confirmed"
    then record c { confirmed = n }
    else if status == "Finalized"
    then record c { finalized = n }
    else if status == "Failed"
    then record c { failed = n }
    else record c { other = c.other + n }

-- The loop over the groups that the query returns.
unfoldable pub count_all : List (String × ℕ) → StatusCounts → StatusCounts
unfolding count_status
count_all [] c = c
count_all ((status, n) ∷ rows) c = count_all rows (count_status status n c)

abbrev pub run_status_counts : Result (List (String × ℕ)) → Result StatusCounts
run_status_counts (err e) = err e
run_status_counts (ok rows) = ok (count_all rows no_counts)

-- A failed query counts nothing.
abbrev pub counts_or_default : Result StatusCounts → StatusCounts
counts_or_default (err e) = no_counts
counts_or_default (ok c) = c

-- One turn: the groups of this run's rows, and the time.
pub record Query : Type 0 where
  pub rows : Result (List (String × ℕ))
  pub now : ℕ

pub data DrainEnd : Type 0 where
  all_terminal max_wait_reached draining : DrainEnd

pub record Drained : Type 0 where
  pub queries : ℕ
  pub end : DrainEnd

abbrev pub one_more : Drained → Drained
one_more d = record { queries = d.queries + 1; end = d.end }

abbrev pub drain_turn : (deadline now : ℕ) → StatusCounts → Drained → Drained
drain_turn deadline now c rest =
    if non_terminal c == 0
    then record { queries = 1; end = all_terminal }
    else if leb deadline now
    then record { queries = 1; end = max_wait_reached }
    else one_more rest

unfoldable pub drain_to_terminal : (deadline : ℕ) → List Query → Drained
unfolding count_all
drain_to_terminal deadline [] = record { queries = 0; end = draining }
drain_to_terminal deadline (q ∷ l) =
    let rest = drain_to_terminal deadline l in
    drain_turn deadline q.now (counts_or_default (run_status_counts q.rows)) rest
