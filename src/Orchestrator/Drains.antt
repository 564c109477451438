-- ===== src/Orchestrator/Drains.antt =====
-- When the drain ends, and why.
use solana_smart_tx.Base.{
  ℕ, ◌+◌, ◌≤◌, ◌<◌, ◌≡◌, refl, ap, String, Bool, true, false, ◌⊎◌, inl, inr, List, [], ◌∷◌, ◌++◌,
  arith,
}
use solana_smart_tx.Base.Tests.{nat_eq, string_eq, ◌==◌, leb, if◌then◌else◌, Bool-cases}
use solana_smart_tx.Base.Lists.{length, All}
use solana_smart_tx.Base.Text.{Text}
use solana_smart_tx.Base.Result.{Result, err, ok}
use solana_smart_tx.Orchestrator.Drain.{
  StatusCounts, non_terminal, count_status, count_all, no_counts, run_status_counts,
  counts_or_default, Query, DrainEnd, all_terminal, max_wait_reached, draining, Drained, one_more,
  drain_turn, drain_to_terminal,
}

-- What the groups of a query say of one status: the count beside it, the last one if there are several.
abbrev pub counted : String → List (String × ℕ) → ℕ → ℕ
counted name [] old = old
counted name ((status, n) ∷ rows) old = counted name rows (if status == name then n else old)

-- The bundles of this run that are in flight.
abbrev pub in_flight : List (String × ℕ) → ℕ
in_flight rows =
    counted "Submitted" rows 0 + counted "Processed" rows 0 + counted "Confirmed" rows 0

count_submitted :
    (status : String) (n : ℕ) (c : StatusCounts)
    → (count_status status n c).submitted ≡ (if status == "Submitted" then n else c.submitted)
unfolding count_status
count_submitted status n c = ground arith

status_of_test : (status name : String) → (status == name) ≡ true → status ≡ name
status_of_test status name e = (string_eq.beq_iff status name).0 e

count_processed :
    (status : String) (n : ℕ) (c : StatusCounts)
    → (count_status status n c).processed ≡ (if status == "Processed" then n else c.processed)
unfolding count_status
count_processed status n c = elim (Bool-cases (status == "Submitted")) [
  | inl e ↦ rw (status_of_test status "Submitted" e) refl
  | inr e ↦ rw e (ground arith)
]

count_confirmed :
    (status : String) (n : ℕ) (c : StatusCounts)
    → (count_status status n c).confirmed ≡ (if status == "Confirmed" then n else c.confirmed)
unfolding count_status
count_confirmed status n c = elim (Bool-cases (status == "Submitted")) [
  | inl e ↦ rw (status_of_test status "Submitted" e) refl
  | inr e ↦ rw e (elim (Bool-cases (status == "Processed")) [
    | inl f ↦ rw (status_of_test status "Processed" f) refl
    | inr f ↦ rw f (ground arith)
  ])
]

count_all-counted :
    (rows : List (String × ℕ)) (c : StatusCounts)
    → non_terminal (count_all rows c)
      ≡ counted "Submitted" rows c.submitted
        + counted "Processed" rows c.processed
        + counted "Confirmed" rows c.confirmed
unfolding count_all
count_all-counted [] c = refl
count_all-counted ((status, n) ∷ rows) c = rw (← count_submitted status n c) (
    rw (← count_processed status n c)
      (rw (← count_confirmed status n c) (count_all-counted rows (count_status status n c))))

-- The query failed.
abbrev pub Fails : Query → Type 0
Fails q = (e : Text) × (q.rows ≡ err e)

-- The query found this many bundles in flight.
abbrev pub Found : (ℕ → Type 0) → Query → Type 0
Found P q = (rows : List (String × ℕ)) × (q.rows ≡ ok rows) × P (in_flight rows)

-- A turn that goes on.
abbrev pub Waits : (deadline : ℕ) → Query → Type 0
Waits deadline q = Found (λ n. 0 < n) q × (q.now < deadline)

abbrev pub EndsWith : (deadline : ℕ) → DrainEnd → Query → Type 0
EndsWith deadline all_terminal q = Found (λ n. n ≡ 0) q ⊎ Fails q
EndsWith deadline max_wait_reached q = Found (λ n. 0 < n) q × (deadline ≤ q.now)
EndsWith deadline draining q = ⊥

-- The queries before the last one found work, in time; the last one gave the reason to end.
abbrev pub Drains : (deadline : ℕ) → List Query → Drained → Type 0
Drains deadline l d =
    ((before : List Query) × (last : Query) × (after : List Query) × (l ≡ before ++ last ∷ after)
      × (d.queries ≡ length before + 1)
      × All (Waits deadline) before
      × EndsWith deadline d.end last)
    ⊎ ((d.end ≡ draining) × (d.queries ≡ length l) × All (Waits deadline) l)

module _ (deadline : ℕ) where
  wait_lem :
      (q : Query) (l : List Query) (d : Drained)
      → Waits deadline q
      → Drains deadline l d
      → Drains deadline (q ∷ l) (one_more d)
  wait_lem q l d w (inl (before, last, after, e, n, all, why)) =
      inl (q ∷ before, last, after, ap (λ r. q ∷ r) e, omega (arith, n), (w, all), why)
  wait_lem q l d w (inr (e, n, all)) = inr (e, omega (arith, n), (w, all))

  turn_lem :
      (q : Query) (l : List Query) (d : Drained) (rows : Result (List (String × ℕ)))
      → q.rows ≡ rows
      → Drains deadline l d
      → Drains deadline
          (q ∷ l)
          (drain_turn deadline q.now (counts_or_default (run_status_counts rows)) d)
  turn_lem q l d (err e) h rest = inl ([], q, l, refl, refl, tt, inr (e, h))
  turn_lem q l d (ok rows) h rest =
      go (non_terminal (count_all rows no_counts) == 0) (leb deadline q.now) refl refl
    where
      same : non_terminal (count_all rows no_counts) ≡ in_flight rows
      same = count_all-counted rows no_counts

      go :
          (idle late : Bool)
          → (non_terminal (count_all rows no_counts) == 0) ≡ idle
          → leb deadline q.now ≡ late
          → Drains deadline (q ∷ l) (
              if idle
              then record { queries = 1; end = all_terminal }
              else if late
              then record { queries = 1; end = max_wait_reached }
              else one_more d)
      go true late e f = inl ([], q, l, refl, refl, tt, inl (rows, h, ground (arith, same)))
      go false true e f =
          inl ([], q, l, refl, refl, tt, ((rows, h, ground (arith, same)), ground arith))
      go false false e f = wait_lem q l d ((rows, h, ground (arith, same)), ground arith) rest

  -- The drain asks until a query finds no bundle of this run in flight, which is `Submitted`,
  -- `Processed` or `Confirmed`, or fails, or finds one when the deadline has passed; all the queries
  -- before that one found a bundle in flight, in time. A query that fails ends the drain as if all
  -- bundles were terminal.
  pub drain_to_terminal-Drains : (l : List Query) → Drains deadline l (drain_to_terminal deadline l)
  unfolding drain_to_terminal
  drain_to_terminal-Drains [] = inr (refl, refl, tt)
  drain_to_terminal-Drains (q ∷ l) = turn_lem q l _ q.rows refl (drain_to_terminal-Drains l)
