-- ===== src/Examples/Tracking.antt =====
-- A history of the tracker: two submissions, a landing, a sweep.
use solana_smart_tx.Base.{◌≡◌, ◌≢◌, refl, true, Option, none, some, List, [], ◌∷◌, inr, arith}
use solana_smart_tx.Base.Tests.{nat_eq}
use solana_smart_tx.Base.Int.{ℤ, pos}
use solana_smart_tx.Base.Lists.{contains}
use solana_smart_tx.Base.Map.{get, insert}
use solana_smart_tx.Failure.OnChain.{Deserialize, blockhash_not_found}
use solana_smart_tx.Stream.Types.{
  SlotStatus, SlotUpdate, TxStatusUpdate, StreamEvent, slot_event, tx_status,
}
use solana_smart_tx.Submitter.Types.{BundleRecord}
use solana_smart_tx.Lifecycle.Machine.{
  apply_event, apply_slot, observe, mark_all, failed_write, apply_finalized, apply_confirmed,
}
use solana_smart_tx.Lifecycle.Store.{new_row, insert_row, LogRow, persist, persist_all, update_row}
use solana_smart_tx.Lifecycle.Hydrate.{hydrate}
use solana_smart_tx.Lifecycle.Tracker.{
  Tracker, record_submission, timed_out, time_out, check_timeouts, ingest_and_persist, new_pending,
}
use solana_smart_tx.Lifecycle.Reconcile.{SigStatus}
use solana_smart_tx.Lifecycle.Invariant.{Inv}
use solana_smart_tx.Lifecycle.Events.{apply_event-Inv}
use solana_smart_tx.Lifecycle.Commitment.{
  settle, confirm_by, apply_finalized_scan, apply_confirmed_scan,
}
use solana_smart_tx.Lifecycle.Mirror.{Mirrors}
use solana_smart_tx.Lifecycle.Mirrored.{apply_event-Mirrors}
use solana_smart_tx.Lifecycle.Progress.{Onward, apply_event-Onward}
use solana_smart_tx.Lifecycle.Operations.{Good}
use solana_smart_tx.Lifecycle.Submissions.{
  FitsRecord, recorded, Recorded, record_submission-Recorded,
}
use solana_smart_tx.Lifecycle.Recovery.{hydrate_pending}
use solana_smart_tx.Lifecycle.Timeouts.{Sweeps, check_timeouts_scan}
use solana_smart_tx.Lifecycle.Reconcile.{at_confirmed}
use solana_smart_tx.Lifecycle.Reordered.{status_of, ingest_reordered}
use solana_smart_tx.Lifecycle.Swept.{swept_never_expired}
use solana_smart_tx.Lifecycle.History.{fresh, ingests, submits, Reach, here, next, Reach-Good}

abbrev pub deserialize : Deserialize
deserialize bytes = inr blockhash_not_found

abbrev pub first : BundleRecord
first = record {
  bundle_id = "b1";
  tip_lamports = 12000;
  tip_account = "acct";
  memo_signature = "s1";
  tip_signature = "t1";
  blockhash = "h1";
  blockhash_fetched_at_slot = 1000;
  submitted_at = pos 5000;
  fault_injected = none;
}

abbrev pub start : Tracker
start = fresh 150

abbrev pub one : Tracker
one = recorded start first (some 9000) (some 11000)

first-Fits : FitsRecord first (some 9000) (some 11000)
first-Fits = record {
  tip = omega arith;
  slot = omega arith;
  median = omega arith;
  upper = omega arith;
}

one_lem : record_submission start first (some 9000) (some 11000) ≡ some (one, 1)
unfolding record_submission insert_row new_row
one_lem = refl

pub one-Reach : Reach deserialize (fresh 150) one
unfolding get
one-Reach = next here (submits start one first (some 9000) (some 11000) 1 first-Fits refl one_lem)

abbrev landing : StreamEvent
landing = tx_status (record { signature = "s1"; slot = 1005; err = none; received_at = pos 6000 })

abbrev two : Tracker
two = ingest_and_persist deserialize one landing

two-Reach : Reach deserialize (fresh 150) two
two-Reach = next one-Reach (ingests one landing (omega arith))

start-Reach : Reach deserialize (fresh 150) start
start-Reach = here

-- Slot 1200 is observed before the bundle lands: it is then past the threshold.
abbrev late : StreamEvent
late = slot_event (record { slot = 1200; status = SlotStatus.processed; received_at = pos 90000 })

abbrev old : Tracker
old = ingest_and_persist deserialize one late

old-Reach : Reach deserialize (fresh 150) old
old-Reach = next one-Reach (ingests one late tt)

Reach-Good_example : Good two
Reach-Good_example = Reach-Good two-Reach

two-Good : Good two
two-Good = Reach-Good two-Reach

apply_event-Inv_example : Inv (apply_event deserialize two.inner landing).0
apply_event-Inv_example = apply_event-Inv deserialize two.inner landing two-Good.inv

apply_event-Mirrors_example :
    let r = apply_event deserialize one.inner landing in Mirrors (persist_all one.db r.1) r.0
apply_event-Mirrors_example =
    apply_event-Mirrors deserialize landing one.db one.inner (omega arith)
      (Reach-Good one-Reach).mirror

apply_event-Onward_example : Onward one.inner (apply_event deserialize one.inner landing).0
apply_event-Onward_example = apply_event-Onward deserialize landing one.inner

apply_finalized_scan_example :
    get 1 (apply_finalized 1010 (pos 8000) two.inner).0.pending
    ≡ settle 1010 (get 1 two.inner.pending)
apply_finalized_scan_example = apply_finalized_scan 1010 (pos 8000) two.inner 1 two-Good.inv

apply_confirmed_scan_example :
    get 1 (apply_confirmed 1010 (pos 7000) two.inner).0.pending
    ≡ confirm_by 1010 (pos 7000) (get 1 two.inner.pending)
apply_confirmed_scan_example = apply_confirmed_scan 1010 (pos 7000) two.inner 1 two-Good.inv

record_submission-Recorded_example :
    Recorded start first
      (some 9000)
      (some 11000)
      (record_submission start first (some 9000) (some 11000))
unfolding get
record_submission-Recorded_example =
    record_submission-Recorded start first (some 9000) (some 11000) first-Fits refl
      (Reach-Good start-Reach)

hydrate_pending_example : get 1 (hydrate two.db).pending ≡ get 1 two.inner.pending
hydrate_pending_example = hydrate_pending two 1 (Reach-Good two-Reach)

abbrev replies : List (Option SigStatus × ℤ)
replies =
    (some (record { slot = 1005; confirmation = at_confirmed; err_hex = none }), pos 9000) ∷ []

check_timeouts_scan_example :
    let r = check_timeouts deserialize old (pos 99000) in
    Sweeps deserialize old.inner.last_observed_slot old.timeout_slots
      (pos 99000)
      1
      (get 1 old.inner.pending)
      (get 1 r.0.inner.pending)
      (get 1 old.db.rows)
      (get 1 r.0.db.rows)
      (contains 1 r.1)
check_timeouts_scan_example =
    check_timeouts_scan deserialize old (pos 99000) 1 (Reach-Good old-Reach)

abbrev or_new : Option LogRow → LogRow
or_new none = new_row first none none
or_new (some row) = row

abbrev swept_row : LogRow
swept_row = or_new (get 1 (check_timeouts deserialize old (pos 99000)).0.db.rows)

is_swept : contains 1 (check_timeouts deserialize old (pos 99000)).1 ≡ true
unfolding contains check_timeouts timed_out ingest_and_persist apply_event apply_slot observe insert
    new_row
is_swept = refl

has_swept_row : get 1 (check_timeouts deserialize old (pos 99000)).0.db.rows ≡ some swept_row
unfolding get check_timeouts timed_out ingest_and_persist apply_event apply_slot observe insert
    new_row mark_all time_out persist_all persist update_row failed_write
has_swept_row = refl

swept_never_expired_example : swept_row.failure_kind ≢ some "ExpiredBlockhash"
swept_never_expired_example =
    swept_never_expired (pos 99000) 1 swept_row old-Reach is_swept has_swept_row

abbrev finality : SlotUpdate
finality = record { slot = 1010; status = SlotStatus.finalized; received_at = pos 9000 }

abbrev landing_update : TxStatusUpdate
landing_update = record { signature = "s1"; slot = 1005; err = none; received_at = pos 6000 }

ingest_reordered_example :
    let (i1, w1) = apply_event deserialize one.inner (tx_status landing_update) in
    let (i2, w2) = apply_event deserialize i1 (slot_event finality) in
    (get 1 i2.pending ≡ none)
    × (status_of (get 1 (persist_all (persist_all one.db w2) w1).rows) ≡ some "Processed")
    × (¬ Mirrors (persist_all (persist_all one.db w2) w1) i2)
unfolding get insert
ingest_reordered_example =
    ingest_reordered deserialize one.db one.inner landing_update finality 1
      (new_pending first (some 9000) (some 11000)) (Reach-Good one-Reach).inv
      (Reach-Good one-Reach).mirror refl refl refl refl refl (omega arith)
