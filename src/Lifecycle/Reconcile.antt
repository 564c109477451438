-- ===== src/Lifecycle/Reconcile.antt =====
-- crates/lifecycle/src/lib.rs: `reconcile`, given the replies of `getSignatureStatuses`.
use solana_smart_tx.Base.{
  ℕ, String, Bool, true, false, ◌&&◌, Option, none, some, List, [], ◌∷◌, ◌++◌,
}
use solana_smart_tx.Base.Tests.{nat_eq, string_eq, ltb, leb, if◌then◌else◌}
use solana_smart_tx.Base.Int.{ℤ, ◌-ℤ◌, to_i64}
use solana_smart_tx.Base.Lists.{length}
use solana_smart_tx.Base.Map.{Map, get}
use solana_smart_tx.Base.Text.{Text}
use solana_smart_tx.Failure.Types.{on_chain_error}
use solana_smart_tx.Failure.OnChain.{Deserialize}
use solana_smart_tx.Failure.Classify.{classify}
use solana_smart_tx.Lifecycle.Types.{
  Stage, processed, confirmed, finalized, rank, as_str, Pending, Inner, Write,
}
use solana_smart_tx.Lifecycle.Machine.{
  map_option, failed_write, mark_processed, mark_confirmed, mark_finalized,
}
use solana_smart_tx.Lifecycle.Store.{LogRow, Database, persist}
use solana_smart_tx.Lifecycle.Hydrate.{non_terminal, stage_or_submitted}
use solana_smart_tx.Lifecycle.Tracker.{Tracker, fail_row}

pub data ConfirmationLevel : Type 0 where
  at_processed at_confirmed at_finalized : ConfirmationLevel

pub record SigStatus : Type 0 where
  pub slot : ℕ
  pub confirmation : ConfirmationLevel
  pub err_hex : Option Text

abbrev pub stage_of : ConfirmationLevel → Stage
stage_of at_processed = processed
stage_of at_confirmed = confirmed
stage_of at_finalized = finalized

pub record ReconcileTransition : Type 0 where
  pub id : ℕ
  pub to_stage : String
  pub slot : ℕ

-- A transition that is due from `current` on the way to the reported stage.
abbrev pub is_due : Stage → Stage → Stage → Bool
is_due reached current stage = leb (rank stage) (rank reached) && ltb (rank current) (rank stage)

abbrev pub when : Bool → (Inner → ℕ → Inner × Option Write) → Inner → ℕ → Inner × Option Write
when true mark inner id = mark inner id
when false mark inner id = (inner, none)

abbrev pub noted : Option Write → Stage → List (Write × Stage) → List (Write × Stage)
noted none stage l = l
noted (some w) stage l = (w, stage) ∷ l

-- The missed transitions of one row, in memory.
unfoldable pub catch_up : Stage → Stage → ℕ → ℤ → Inner → ℕ → Inner × List (Write × Stage)
catch_up reached current slot now inner id =
    let (i1, w1) =
      when (is_due reached current processed) (mark_processed slot now "reconcile") inner id in
    let (i2, w2) = when (is_due reached current confirmed) (mark_confirmed now "reconcile") i1 id in
    let (i3, w3) = when (is_due reached current finalized) (mark_finalized now "reconcile") i2 id in
    (i3, noted w1 processed (noted w2 confirmed (noted w3 finalized [])))

abbrev pub persist_noted : Database → List (Write × Stage) → Database
persist_noted db [] = db
persist_noted db ((w, stage) ∷ l) = persist_noted (persist db w) l

abbrev report_noted : ℕ → ℕ → List (Write × Stage) → List ReconcileTransition
report_noted id slot [] = []
report_noted id slot ((w, stage) ∷ l) =
    record { id = id; to_stage = as_str stage; slot = slot } ∷ report_noted id slot l

-- The classified failure of a landed transaction, with the delta if the bundle is in memory.
abbrev reconcile_failure : Deserialize → Tracker → ℕ → SigStatus → Text → ℤ → Write
reconcile_failure deserialize t id st hex now =
    failed_write id (classify deserialize (on_chain_error hex st.slot)) (some (to_i64 st.slot))
      (some now) (map_option (λ (p : Pending). now -ℤ p.submitted_at_ms) (get id t.inner.pending))
      now

abbrev pub reconcile_status :
    Deserialize
    → Tracker
    → ℕ
    → Stage
    → SigStatus
    → Option Text
    → ℤ
    → Tracker × List ReconcileTransition
reconcile_status deserialize t id current st (some hex) now = (
  fail_row t id (reconcile_failure deserialize t id st hex now),
  record { id = id; to_stage = "Failed"; slot = st.slot } ∷ [],
)
reconcile_status deserialize t id current st none now =
    let (inner, l) = catch_up (stage_of st.confirmation) current st.slot now t.inner id in
    (record t { db = persist_noted t.db l; inner = inner }, report_noted id st.slot l)

-- One round of the loop of `reconcile`: a row of the SELECT, the reply for it, and the time.
unfoldable pub reconcile_row :
    Deserialize → Tracker → ℕ → String → Option SigStatus → ℤ → Tracker × List ReconcileTransition
unfolding catch_up
reconcile_row deserialize t id status none now = (t, [])
reconcile_row deserialize t id status (some st) now =
    reconcile_status deserialize t id (stage_or_submitted status) st st.err_hex now

-- The SELECT of `reconcile`: the rows that are not terminal, with their status.
unfoldable pub unsettled : Map ℕ LogRow → List (ℕ × String)
unsettled [] = []
unsettled ((id, row) ∷ rows) =
    if non_terminal row.status then (id, row.status) ∷ unsettled rows else unsettled rows

-- The loop, over the rows zipped with the replies (each with the time at which it is handled).
unfoldable pub reconcile_rows :
    Deserialize
    → Tracker
    → List (ℕ × String)
    → List (Option SigStatus × ℤ)
    → Tracker × List ReconcileTransition
reconcile_rows deserialize t [] replies = (t, [])
reconcile_rows deserialize t (row ∷ rows) [] = (t, [])
reconcile_rows deserialize t ((id, status) ∷ rows) ((reply, now) ∷ replies) =
    let (t', done) = reconcile_row deserialize t id status reply now in
    let (t'', later) = reconcile_rows deserialize t' rows replies in (t'', done ++ later)

pub record ReconcileReport : Type 0 where
  pub checked : ℕ
  pub transitions : List ReconcileTransition

-- `reconcile`, given the replies of `getSignatureStatuses`.
unfoldable pub reconcile :
    Deserialize → Tracker → List (Option SigStatus × ℤ) → Tracker × ReconcileReport
reconcile deserialize t replies =
    let rows = unsettled t.db.rows in
    let (t', transitions) = reconcile_rows deserialize t rows replies in
    (t', record { checked = length rows; transitions = transitions })
