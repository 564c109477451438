-- ===== src/Lifecycle/History.antt =====
-- Histories of a tracker: its operations one after another in any order, restarts included, each with
-- its database writes.
use solana_smart_tx.Base.{ℕ, ◌≡◌, refl, Option, none, some, List, []}
use solana_smart_tx.Base.Tests.{nat_eq, string_eq}
use solana_smart_tx.Base.Int.{ℤ}
use solana_smart_tx.Base.Map.{get, Distinct}
use solana_smart_tx.Base.Text.{Text}
use solana_smart_tx.Failure.OnChain.{Deserialize}
use solana_smart_tx.Stream.Types.{StreamEvent}
use solana_smart_tx.Submitter.Types.{BundleRecord}
use solana_smart_tx.Lifecycle.Hydrate.{empty_inner}
use solana_smart_tx.Lifecycle.Tracker.{
  Tracker, new, record_submission, record_jito_status, record_rejection, ingest_and_persist,
  check_timeouts,
}
use solana_smart_tx.Lifecycle.Reconcile.{SigStatus, reconcile}
use solana_smart_tx.Lifecycle.Mirrored.{Fits}
use solana_smart_tx.Lifecycle.Operations.{Good, ingest_and_persist-Good, record_rejection-Good}
use solana_smart_tx.Lifecycle.Submissions.{FitsRecord, Recorded, record_submission-Recorded}
use solana_smart_tx.Lifecycle.Sweeps.{record_jito_status-Good, check_timeouts-Good}
use solana_smart_tx.Lifecycle.Reconciled.{FitsReplies, reconcile-Good}
use solana_smart_tx.Lifecycle.Rehydration.{empty-Inv, new-Good}

-- The tracker of a fresh database.
abbrev pub fresh : ℕ → Tracker
fresh timeout_slots = record {
  db = record { rows = []; next_id = 1 };
  inner = empty_inner;
  timeout_slots = timeout_slots;
}

-- One operation, with the writes that it awaits. A submission brings a signature that is not tracked; numbers are `u64`s.
pub data Step (deserialize : Deserialize) : Tracker → Tracker → Type 0 where
  ingests :
      (t : Tracker) (event : StreamEvent)
      → Fits event
      → Step deserialize t (ingest_and_persist deserialize t event)
  submits :
      (t t' : Tracker) (r : BundleRecord) (p50 p75 : Option ℕ) (id : ℕ)
      → FitsRecord r p50 p75
      → get r.memo_signature t.inner.by_sig ≡ none
      → record_submission t r p50 p75 ≡ some (t', id)
      → Step deserialize t t'
  polls :
      (t : Tracker) (id : ℕ) (status : Text) → Step deserialize t (record_jito_status t id status)
  rejects :
      (t : Tracker) (id : ℕ) (raw_error : Text) (now : ℤ)
      → Step deserialize t (record_rejection deserialize t id raw_error now)
  sweeps : (t : Tracker) (now : ℤ) → Step deserialize t (check_timeouts deserialize t now).0
  reconciles :
      (t : Tracker) (replies : List (Option SigStatus × ℤ))
      → FitsReplies replies
      → Step deserialize t (reconcile deserialize t replies).0
  restarts : (t : Tracker) (timeout_slots : ℕ) → Step deserialize t (new t.db timeout_slots)

pub data Reach (deserialize : Deserialize) (s : Tracker) : Tracker → Type 0 where
  here : Reach deserialize s s
  next : {t u : Tracker} → Reach deserialize s t → Step deserialize t u → Reach deserialize s u

submitted-Good :
    (t t' : Tracker) (r : BundleRecord) (p50 p75 : Option ℕ) (id : ℕ)
    → record_submission t r p50 p75 ≡ some (t', id)
    → Recorded t r p50 p75 (record_submission t r p50 p75)
    → Good t'
submitted-Good t t' r p50 p75 id e h =
    let k : Recorded t r p50 p75 (some (t', id)) = rw e at h in k.0

Step-Good : {deserialize : Deserialize} {t u : Tracker} → Step deserialize t u → Good t → Good u
Step-Good {deserialize} (ingests t event fits) g =
    ingest_and_persist-Good deserialize t event fits g
Step-Good (submits t t' r p50 p75 id fits unseen e) g =
    submitted-Good t t' r p50 p75 id e (record_submission-Recorded t r p50 p75 fits unseen g)
Step-Good (polls t id status) g = record_jito_status-Good t id status g
Step-Good {deserialize} (rejects t id raw_error now) g =
    record_rejection-Good deserialize t id raw_error now g
Step-Good {deserialize} (sweeps t now) g = check_timeouts-Good deserialize t now g
Step-Good {deserialize} (reconciles t replies fits) g = reconcile-Good deserialize t replies fits g
Step-Good (restarts t timeout_slots) g = new-Good t timeout_slots g

fresh-Good : (timeout_slots : ℕ) → Good (fresh timeout_slots)
unfolding get Distinct
fresh-Good timeout_slots = record {
  inv = empty-Inv;
  mirror = λ j. refl;
  keyed = record { fresh = λ j le. refl; unique = tt };
}

-- After any operations on a fresh database, one after another, the tracker is good: the memory's
-- invariant holds, and the rows that are not terminal are the tracked bundles, field by field. Each
-- operation is over, its database writes included, before the next begins, and an event's writes are
-- awaited in their order, as `ingest_and_persist` does (the spawned writes of `ingest` are not among
-- these steps); each submission brings a signature that is not tracked, and all numbers are `u64`s.
pub Reach-Good :
    {deserialize : Deserialize} {timeout_slots : ℕ} {t : Tracker}
    → Reach deserialize (fresh timeout_slots) t
    → Good t
Reach-Good {timeout_slots = n} here = fresh-Good n
Reach-Good (next r s) = Step-Good s (Reach-Good r)
