-- ===== src/Lifecycle/Tracker.antt =====
-- crates/lifecycle/src/lib.rs: the operations of `LifecycleTracker`, each with its writes awaited.
use solana_smart_tx.Base.{ℕ, ◌-◌, Bool, ◌&&◌, Option, none, some, List, [], ◌∷◌}
use solana_smart_tx.Base.Tests.{nat_eq, string_eq, ltb, if◌then◌else◌}
use solana_smart_tx.Base.Int.{ℤ}
use solana_smart_tx.Base.Map.{Map, get, insert}
use solana_smart_tx.Base.Text.{Text}
use solana_smart_tx.Failure.Types.{submit_rejection, never_landed, Evidence, from_status_str}
use solana_smart_tx.Failure.OnChain.{Deserialize}
use solana_smart_tx.Failure.Classify.{classify}
use solana_smart_tx.Stream.Types.{StreamEvent}
use solana_smart_tx.Submitter.Types.{BundleRecord}
use solana_smart_tx.Lifecycle.Types.{submitted, Pending, Inner, Write, to_millis}
use solana_smart_tx.Lifecycle.Machine.{is_submitted, forget, failed_write, mark_all, apply_event}
use solana_smart_tx.Lifecycle.Store.{
  LogRow, Database, persist, persist_all, update_row, new_row, insert_row,
}
use solana_smart_tx.Lifecycle.Hydrate.{hydrate}

pub record Tracker : Type 0 where
  pub db : Database
  pub inner : Inner
  pub timeout_slots : ℕ

-- `LifecycleTracker::new` on a database whose migrations have run.
unfoldable pub new : Database → ℕ → Tracker
new db timeout_slots = record { db = db; inner = hydrate db; timeout_slots = timeout_slots }

abbrev pub new_pending : BundleRecord → Option ℕ → Option ℕ → Pending
new_pending r p50 p75 = record {
  memo_signature = r.memo_signature;
  state = submitted;
  landed_slot = none;
  submitted_slot = r.blockhash_fetched_at_slot;
  blockhash_fetched_at_slot = r.blockhash_fetched_at_slot;
  submitted_at_ms = to_millis r.submitted_at;
  processed_at_ms = none;
  confirmed_at_ms = none;
  tip_lamports = r.tip_lamports;
  tip_p50 = p50;
  tip_p75 = p75;
  jito_inflight = none;
}

-- The memory after a submission has got its row.
abbrev pub track : ℕ → Pending → Inner → Inner
track id p inner = record inner {
  by_sig = insert p.memo_signature id inner.by_sig;
  pending = insert id p inner.pending;
}

-- `record_submission`; `none` where the INSERT fails.
unfoldable pub record_submission :
    Tracker → BundleRecord → Option ℕ → Option ℕ → Option (Tracker × ℕ)
unfolding insert_row
record_submission t r p50 p75 = elim (insert_row (new_row r p50 p75) t.db) [
  | none ↦ none
  | some (db, id) ↦
      some (record t { db = db; inner = track id (new_pending r p50 p75) t.inner }, id)
]

abbrev pub with_jito : Text → Pending → Pending
with_jito status p = record p { jito_inflight = some status }

abbrev pub row_with_jito : Text → LogRow → LogRow
row_with_jito status row = record row { jito_inflight_status = some status }

unfoldable pub jito_in_memory : ℕ → Text → Inner → Inner
jito_in_memory id status inner = elim (get id inner.pending) [
  | none ↦ inner
  | some p ↦ record inner { pending = insert id (with_jito status p) inner.pending }
]

unfoldable pub record_jito_status : Tracker → ℕ → Text → Tracker
unfolding jito_in_memory
record_jito_status t id status = record t {
  db = update_row id (row_with_jito status) t.db;
  inner = jito_in_memory id status t.inner;
}

abbrev pub fail_row : Tracker → ℕ → Write → Tracker
fail_row t id w = record t { db = persist t.db w; inner = forget t.inner id }

unfoldable pub record_rejection : Deserialize → Tracker → ℕ → Text → ℤ → Tracker
record_rejection deserialize t id raw_error now =
    fail_row t id
      (failed_write id (classify deserialize (submit_rejection raw_error)) none none none now)

-- `ingest_and_persist`, which awaits each write; `ingest` has the same effect on the memory, and
-- spawns a task for each write.
unfoldable pub ingest_and_persist : Deserialize → Tracker → StreamEvent → Tracker
ingest_and_persist deserialize t event =
    let (inner, ws) = apply_event deserialize t.inner event in
    record t { db = persist_all t.db ws; inner = inner }

-- `check_timeouts`: the bundles past the threshold, and the evidence that is assembled of one.
abbrev pub is_timed_out : ℕ → ℕ → Pending → Bool
is_timed_out last threshold p =
    is_submitted p.state && ltb threshold (last - p.blockhash_fetched_at_slot)

unfoldable pub timed_out : ℕ → ℕ → Map ℕ Pending → List ℕ
timed_out last threshold [] = []
timed_out last threshold ((id, p) ∷ m) =
    if is_timed_out last threshold p
    then id ∷ timed_out last threshold m
    else timed_out last threshold m

abbrev pub timeout_evidence : ℕ → Pending → Evidence
timeout_evidence last p =
    never_landed p.submitted_slot p.blockhash_fetched_at_slot last p.tip_lamports p.tip_p50
      p.tip_p75 (from_status_str p.jito_inflight)

-- One round of the loop; the row is there, since its id comes from the map.
unfoldable pub time_out : Deserialize → ℕ → ℤ → Inner → ℕ → Inner × Option Write
unfolding forget failed_write
time_out deserialize last now inner id = elim (get id inner.pending) [
  | none ↦ (inner, none)
  | some p ↦ (
    forget inner id,
    some (failed_write id (classify deserialize (timeout_evidence last p)) none none none now),
  )
]

unfoldable pub check_timeouts : Deserialize → Tracker → ℤ → Tracker × List ℕ
check_timeouts deserialize t now =
    let last = t.inner.last_observed_slot in
    let ids = timed_out last t.timeout_slots t.inner.pending in
    let (inner, ws) = mark_all (time_out deserialize last now) t.inner ids in
    (record t { db = persist_all t.db ws; inner = inner }, ids)
