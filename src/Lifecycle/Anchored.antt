-- ===== src/Lifecycle/Anchored.antt =====
-- `record_submission` writes the blockhash slot as the submission slot, and nothing changes it later.
use solana_smart_tx.Base.{
  ℕ, String, ◌≡◌, refl, sym, inl, inr, Bool, true, false, Option, none, some, List, [], ◌∷◌, arith,
}
use solana_smart_tx.Base.Tests.{nat_eq, if◌then◌else◌, ◌==◌, Bool-cases, Option-cases}
use solana_smart_tx.Base.Int.{ℤ}
use solana_smart_tx.Base.Map.{get, get-insert}
use solana_smart_tx.Base.Text.{Text}
use solana_smart_tx.Failure.OnChain.{Deserialize}
use solana_smart_tx.Submitter.Types.{BundleRecord}
use solana_smart_tx.Lifecycle.Types.{Stage, processed, confirmed, finalized, Pending, Inner, Write}
use solana_smart_tx.Lifecycle.Machine.{
  forget, mark_all, mark_processed, mark_confirmed, mark_finalized, apply_event,
}
use solana_smart_tx.Lifecycle.Store.{insert_row, new_row}
use solana_smart_tx.Lifecycle.Hydrate.{stage_or_submitted}
use solana_smart_tx.Lifecycle.Tracker.{
  Tracker, new, new_pending, record_submission, with_jito, jito_in_memory, record_jito_status,
  record_rejection, ingest_and_persist, timed_out, time_out, check_timeouts,
}
use solana_smart_tx.Lifecycle.Reconcile.{
  SigStatus, stage_of, is_due, when, catch_up, reconcile_status, reconcile_row, unsettled,
  reconcile_rows, reconcile,
}
use solana_smart_tx.Lifecycle.Progress.{
  Stems, Onward, Onward-refl, Onward-trans, insert-Onward, mark_processed-Onward,
  mark_confirmed-Onward, mark_finalized-Onward, forget-Onward, mark_all-Onward, apply_event-Onward,
}
use solana_smart_tx.Lifecycle.Operations.{Good}
use solana_smart_tx.Lifecycle.Submissions.{has_bundle}
use solana_smart_tx.Lifecycle.Recovery.{hydrate_pending}
use solana_smart_tx.Lifecycle.History.{
  fresh, Step, ingests, submits, polls, rejects, sweeps, reconciles, restarts, Reach, here, next,
  Reach-Good,
}

abbrev pub AnchoredOption : Option Pending → Type 0
AnchoredOption none = Unit {0}
AnchoredOption (some p) = p.submitted_slot ≡ p.blockhash_fetched_at_slot

abbrev Anchored : Inner → Type 0
Anchored inner = (j : ℕ) → AnchoredOption (get j inner.pending)

Stems-AnchoredOption : (o r : Option Pending) → Stems o r → AnchoredOption o → AnchoredOption r
Stems-AnchoredOption o none s a = tt
Stems-AnchoredOption none (some q) s a = elim s [ ]
Stems-AnchoredOption (some p) (some q) s a = ground arith

Onward-Anchored : (before after : Inner) → Onward before after → Anchored before → Anchored after
Onward-Anchored before after o a j =
    Stems-AnchoredOption (get j before.pending) (get j after.pending) (o j) (a j)

time_out-Onward :
    (deserialize : Deserialize) (last : ℕ) (now : ℤ) (inner : Inner) (id : ℕ)
    → Onward inner (time_out deserialize last now inner id).0
unfolding time_out
time_out-Onward deserialize last now inner id = elim (Option-cases (get id inner.pending)) [
  | inl e ↦ rw (e, time_out) (Onward-refl inner)
  | inr (p, e) ↦ rw (e, time_out) (forget-Onward inner id)
]

when-Onward :
    (b : Bool) (mark : Inner → ℕ → Inner × Option Write) (inner : Inner) (id : ℕ)
    → Onward inner (mark inner id).0
    → Onward inner (when b mark inner id).0
when-Onward true mark inner id h = h
when-Onward false mark inner id h = Onward-refl inner

catch_up-Onward :
    (reached current : Stage) (slot : ℕ) (now : ℤ) (inner : Inner) (id : ℕ)
    → Onward inner (catch_up reached current slot now inner id).0
unfolding catch_up
catch_up-Onward reached current slot now inner id =
    let (i1, w1) =
      when (is_due reached current processed) (mark_processed slot now "reconcile") inner id in
    let (i2, w2) = when (is_due reached current confirmed) (mark_confirmed now "reconcile") i1 id in
    let (i3, w3) = when (is_due reached current finalized) (mark_finalized now "reconcile") i2 id in
    Onward-trans inner i1 i3
      (when-Onward (is_due reached current processed) (mark_processed slot now "reconcile") inner id
        (mark_processed-Onward inner id slot now "reconcile"))
      (Onward-trans i1 i2 i3
        (when-Onward (is_due reached current confirmed) (mark_confirmed now "reconcile") i1 id
          (mark_confirmed-Onward i1 id now "reconcile"))
        (when-Onward (is_due reached current finalized) (mark_finalized now "reconcile") i2 id
          (mark_finalized-Onward i2 id now "reconcile")))

module _ (deserialize : Deserialize) where
  reconcile_status-Onward :
      (t : Tracker) (id : ℕ) (current : Stage) (st : SigStatus) (err : Option Text) (now : ℤ)
      → Onward t.inner (reconcile_status deserialize t id current st err now).0.inner
  reconcile_status-Onward t id current st (some hex) now = forget-Onward t.inner id
  reconcile_status-Onward t id current st none now =
      catch_up-Onward (stage_of st.confirmation) current st.slot now t.inner id

  reconcile_row-Onward :
      (t : Tracker) (id : ℕ) (status : String) (reply : Option SigStatus) (now : ℤ)
      → Onward t.inner (reconcile_row deserialize t id status reply now).0.inner
  unfolding reconcile_row
  reconcile_row-Onward t id status none now = Onward-refl t.inner
  reconcile_row-Onward t id status (some st) now =
      reconcile_status-Onward t id (stage_or_submitted status) st st.err_hex now

  reconcile_rows-Onward :
      (t : Tracker) (rows : List (ℕ × String)) (replies : List (Option SigStatus × ℤ))
      → Onward t.inner (reconcile_rows deserialize t rows replies).0.inner
  unfolding reconcile_rows
  reconcile_rows-Onward t [] replies = Onward-refl t.inner
  reconcile_rows-Onward t (row ∷ rows) [] = Onward-refl t.inner
  reconcile_rows-Onward t ((id, status) ∷ rows) ((reply, now) ∷ replies) =
      let (t', done) = reconcile_row deserialize t id status reply now in
      Onward-trans t.inner t'.inner (reconcile_rows deserialize t' rows replies).0.inner
        (reconcile_row-Onward t id status reply now) (reconcile_rows-Onward t' rows replies)

jito-Onward :
    (inner : Inner) (id : ℕ) (status : Text) → Onward inner (jito_in_memory id status inner)
unfolding jito_in_memory
jito-Onward inner id status = elim (Option-cases (get id inner.pending)) [
  | inl e ↦ rw (e, jito_in_memory) (Onward-refl inner)
  | inr (p, e) ↦
      rw (e, jito_in_memory) (insert-Onward inner id p (with_jito status p) e (ground arith))
]

AnchoredOption-of_eq : (o r : Option Pending) → o ≡ r → AnchoredOption o → AnchoredOption r
AnchoredOption-of_eq none none e a = tt
AnchoredOption-of_eq (some p) none e a = tt
AnchoredOption-of_eq none (some q) e a = cc
AnchoredOption-of_eq (some p) (some q) e a = ground arith

anchored_if :
    (b : Bool) (p : Pending) (o : Option Pending)
    → p.submitted_slot ≡ p.blockhash_fetched_at_slot
    → AnchoredOption o
    → AnchoredOption (if b then some p else o)
anchored_if true p o e a = e
anchored_if false p o e a = a

-- What a submission does to `Anchored`; nothing is asked of a refused one.
abbrev AnchoredAfter : Option (Tracker × ℕ) → Type 0
AnchoredAfter none = Unit {0}
AnchoredAfter (some (t, id)) = Anchored t.inner

AnchoredAfter-of_eq :
    (o : Option (Tracker × ℕ)) (t : Tracker) (id : ℕ)
    → o ≡ some (t, id)
    → AnchoredAfter o
    → Anchored t.inner
AnchoredAfter-of_eq o t id e a = let k : AnchoredAfter (some (t, id)) = rw e at a in k

submission-Anchored :
    (t : Tracker) (r : BundleRecord) (p50 p75 : Option ℕ)
    → Anchored t.inner
    → AnchoredAfter (record_submission t r p50 p75)
unfolding record_submission insert_row new_row
submission-Anchored t r p50 p75 a = elim (Bool-cases (has_bundle r.bundle_id t.db.rows)) [
  | inl dup ↦ rw (dup, record_submission) tt
  | inr new_id ↦
      rw (new_id, record_submission)
        λ j.
          AnchoredOption-of_eq _ _
            (sym (get-insert t.db.next_id j (new_pending r p50 p75) t.inner.pending))
            (anchored_if (t.db.next_id == j) (new_pending r p50 p75) (get j t.inner.pending) refl
              (a j))
]

Step-Anchored :
    {deserialize : Deserialize} {t u : Tracker}
    → Step deserialize t u
    → Good t
    → Anchored t.inner
    → Anchored u.inner
unfolding ingest_and_persist record_rejection check_timeouts record_jito_status reconcile new
Step-Anchored {deserialize} (ingests t event fits) g a =
    Onward-Anchored t.inner (apply_event deserialize t.inner event).0
      (apply_event-Onward deserialize event t.inner) a
Step-Anchored (submits t t' r p50 p75 id fits unseen e) g a =
    AnchoredAfter-of_eq (record_submission t r p50 p75) t' id e (submission-Anchored t r p50 p75 a)
Step-Anchored (polls t id status) g a =
    Onward-Anchored t.inner (jito_in_memory id status t.inner) (jito-Onward t.inner id status) a
Step-Anchored (rejects t id raw_error now) g a =
    Onward-Anchored t.inner (forget t.inner id) (forget-Onward t.inner id) a
Step-Anchored {deserialize} (sweeps t now) g a =
    let last = t.inner.last_observed_slot in
    let ids = timed_out last t.timeout_slots t.inner.pending in
    Onward-Anchored t.inner (mark_all (time_out deserialize last now) t.inner ids).0
      (mark_all-Onward (time_out deserialize last now) (time_out-Onward deserialize last now) ids
        t.inner)
      a
Step-Anchored {deserialize} (reconciles t replies fits) g a =
    Onward-Anchored t.inner (reconcile_rows deserialize t (unsettled t.db.rows) replies).0.inner
      (reconcile_rows-Onward deserialize t (unsettled t.db.rows) replies) a
Step-Anchored (restarts t timeout_slots) g a =
    λ j. AnchoredOption-of_eq _ _ (sym (hydrate_pending t j g)) (a j)

pub Reach-Anchored :
    {deserialize : Deserialize} {timeout_slots : ℕ} {t : Tracker}
    → Reach deserialize (fresh timeout_slots) t
    → Anchored t.inner
unfolding get
Reach-Anchored here = λ j. tt
Reach-Anchored (next r s) = Step-Anchored s (Reach-Good r) (Reach-Anchored r)
