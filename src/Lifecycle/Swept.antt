-- ===== src/Lifecycle/Swept.antt =====
-- The class that a timeout sweep stores.
use solana_smart_tx.Base.{ℕ, ◌≡◌, ◌≢◌, true, Option, none, some, arith}
use solana_smart_tx.Base.Tests.{nat_eq}
use solana_smart_tx.Base.Int.{ℤ}
use solana_smart_tx.Base.Lists.{contains}
use solana_smart_tx.Base.Map.{get}
use solana_smart_tx.Failure.OnChain.{Deserialize}
use solana_smart_tx.Failure.Classify.{classify}
use solana_smart_tx.Lifecycle.Types.{Pending}
use solana_smart_tx.Lifecycle.Machine.{failed_write}
use solana_smart_tx.Lifecycle.Store.{LogRow, apply_write}
use solana_smart_tx.Lifecycle.Tracker.{Tracker, check_timeouts, timeout_evidence}
use solana_smart_tx.Lifecycle.Timeouts.{
  expires, timed_out_row, check_timeouts-expires, timeout_never_expired, kind_label-expired,
}
use solana_smart_tx.Lifecycle.History.{fresh, Reach, Reach-Good}
use solana_smart_tx.Lifecycle.Anchored.{AnchoredOption, Reach-Anchored}

-- The kind in a row that a sweep has failed.
swept_kind :
    (deserialize : Deserialize) (last threshold : ℕ) (now : ℤ) (j : ℕ) (q : Option Pending)
    (o : Option LogRow) (row : LogRow)
    → AnchoredOption q
    → expires last threshold q ≡ true
    → timed_out_row deserialize last now true j q o ≡ some row
    → row.failure_kind ≢ some "ExpiredBlockhash"
unfolding failed_write apply_write
swept_kind deserialize last threshold now j none o row a due e kind = ground arith
swept_kind deserialize last threshold now j (some p) none row a due e kind = ground arith
swept_kind deserialize last threshold now j (some p) (some before) row a due e kind =
    timeout_never_expired deserialize last p a
      (kind_label-expired (classify deserialize (timeout_evidence last p)).kind (ground arith))

-- In any history of a fresh database, the timeout sweep never stores the class `ExpiredBlockhash` in
-- a row: whatever the age of the blockhash, a swept bundle's row has another kind.
pub swept_never_expired :
    {deserialize : Deserialize} {timeout_slots : ℕ} {t : Tracker} (now : ℤ) (j : ℕ) (row : LogRow)
    → Reach deserialize (fresh timeout_slots) t
    → contains j (check_timeouts deserialize t now).1 ≡ true
    → get j (check_timeouts deserialize t now).0.db.rows ≡ some row
    → row.failure_kind ≢ some "ExpiredBlockhash"
swept_never_expired {deserialize} {timeout_slots} {t} now j row r swept e =
    let last = t.inner.last_observed_slot in
    let (chosen, gone, stored) = check_timeouts-expires deserialize t now j (Reach-Good r) in
    let due : expires last t.timeout_slots (get j t.inner.pending) ≡ true = cc in
    swept_kind deserialize last t.timeout_slots now j (get j t.inner.pending) (get j t.db.rows) row
      (Reach-Anchored r j) due (ground arith)
