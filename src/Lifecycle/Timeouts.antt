-- ===== src/Lifecycle/Timeouts.antt =====
-- crates/lifecycle/src/lib.rs, `check_timeouts`: which bundles it fails, and with what class.
use solana_smart_tx.Base.{
  ℕ, ◌+◌, ◌-◌, ◌<◌, ◌⊎◌, ◌≡◌, ◌≢◌, refl, inl, inr, Bool, true, false, Option, none, some, List, [],
  ◌∷◌, arith,
}
use solana_smart_tx.Base.Tests.{
  nat_eq, string_eq, ltb, ◌==◌, if◌then◌else◌, Option-cases, Bool-cases,
}
use solana_smart_tx.Base.Int.{ℤ}
use solana_smart_tx.Base.Lists.{contains}
use solana_smart_tx.Base.Map.{Map, get, Distinct, get-remove}
use solana_smart_tx.Failure.OnChain.{Deserialize}
use solana_smart_tx.Failure.Types.{
  FailureKind, expired_blockhash, fee_too_low, compute_exceeded, bundle_failure, transport_error,
  auction_lost, never_landed, Classification, kind_label, from_status_str,
}
use solana_smart_tx.Failure.Causes.{never_landed_expired_iff}
use text.Mathlib.TextEquality.{eq_iff}
use solana_smart_tx.Failure.Classify.{classify}
use solana_smart_tx.Lifecycle.Types.{
  Pending, Inner, target, Stage, submitted, processed, confirmed, finalized, failed,
}
use solana_smart_tx.Lifecycle.Machine.{is_submitted, map_option, forget, failed_write, mark_all}
use solana_smart_tx.Lifecycle.Cases.{forget_cases}
use solana_smart_tx.Lifecycle.Store.{LogRow, Database, apply_write, persist, persist_all}
use solana_smart_tx.Lifecycle.Tracker.{
  Tracker, is_timed_out, timeout_evidence, timed_out, time_out, check_timeouts,
}
use solana_smart_tx.Lifecycle.Mirror.{get-persist}
use solana_smart_tx.Lifecycle.Operations.{Good}

-- The scan that decides about one bundle.
abbrev pub expires : ℕ → ℕ → Option Pending → Bool
expires last threshold none = false
expires last threshold (some p) = is_timed_out last threshold p

contains-timed_out :
    (last threshold : ℕ) (m : Map ℕ Pending) (j : ℕ)
    → Distinct m
    → contains j (timed_out last threshold m) ≡ expires last threshold (get j m)
unfolding timed_out contains get Distinct
contains-timed_out last threshold [] j d = refl
contains-timed_out last threshold ((id, p) ∷ m) j d =
    ground (arith, d.0, contains-timed_out last threshold m j d.1)

get-forget :
    (inner : Inner) (id j : ℕ)
    → get j (forget inner id).pending ≡ (if id == j then none else get j inner.pending)
get-forget inner id j =
    forget_cases inner id (λ i. get j i.pending ≡ (if id == j then none else get j inner.pending))
      (λ e. ground arith) λ p e. get-remove id j inner.pending

-- What a sweep over `ids` does to a row.
abbrev pub timed_out_row :
    Deserialize → ℕ → ℤ → Bool → ℕ → Option Pending → Option LogRow → Option LogRow
timed_out_row deserialize last now true j (some p) o =
    map_option
      (apply_write
        (failed_write j (classify deserialize (timeout_evidence last p)) none none none now))
      o
timed_out_row deserialize last now true j none o = o
timed_out_row deserialize last now false j q o = o

target-failed_write :
    (id : ℕ) (c : Classification) (slot at delta : Option ℤ) (failed_at : ℤ)
    → target (failed_write id c slot at delta failed_at) ≡ id
unfolding failed_write
target-failed_write id c slot at delta failed_at = refl

module _ (deserialize : Deserialize) (last : ℕ) (now : ℤ) where
  time_out_pending :
      (inner : Inner) (id j : ℕ)
      → get j (time_out deserialize last now inner id).0.pending
        ≡ (if id == j then none else get j inner.pending)
  unfolding time_out
  time_out_pending inner id j = elim (Option-cases (get id inner.pending)) [
    | inl e ↦ rw (e, time_out) (ground arith)
    | inr (p, e) ↦ rw (e, time_out) (get-forget inner id j)
  ]

  time_out_all_pending :
      (ids : List ℕ) (inner : Inner) (j : ℕ)
      → get j (mark_all (time_out deserialize last now) inner ids).0.pending
        ≡ (if contains j ids then none else get j inner.pending)
  unfolding mark_all contains
  time_out_all_pending [] inner j = refl
  time_out_all_pending (id ∷ ids) inner j = ground (
    arith,
    time_out_pending inner id j,
    time_out_all_pending ids (time_out deserialize last now inner id).0 j,
  )

  time_out_all_rows :
      (ids : List ℕ) (inner : Inner) (db : Database) (j : ℕ)
      → get j (persist_all db (mark_all (time_out deserialize last now) inner ids).1).rows
        ≡ timed_out_row deserialize last now
            (contains j ids)
            j
            (get j inner.pending)
            (get j db.rows)
  unfolding mark_all persist_all contains time_out
  time_out_all_rows [] inner db j = refl
  time_out_all_rows (id ∷ ids) inner db j = elim (Option-cases (get id inner.pending)) [
    | inl e ↦ rw (e, time_out) (ground (arith, time_out_all_rows ids inner db j))
    | inr (p, e) ↦
        let w =
          failed_write id (classify deserialize (timeout_evidence last p)) none none none now in
        rw (e, time_out)
          (ground (
            arith,
            time_out_all_rows ids (forget inner id) (persist db w) j,
            get-persist w j db,
            get-forget inner id j,
            target-failed_write id (classify deserialize (timeout_evidence last p)) none none none
                now,
          ))
  ]

pub check_timeouts-expires :
    (deserialize : Deserialize) (t : Tracker) (now : ℤ) (j : ℕ)
    → Good t
    → let last = t.inner.last_observed_slot in
      let due = expires last t.timeout_slots (get j t.inner.pending) in
      let r = check_timeouts deserialize t now in
      (contains j r.1 ≡ due)
      × (get j r.0.inner.pending ≡ (if due then none else get j t.inner.pending))
      × (get j r.0.db.rows
          ≡ timed_out_row deserialize last now due j (get j t.inner.pending) (get j t.db.rows))
unfolding check_timeouts
check_timeouts-expires deserialize t now j g =
    let last = t.inner.last_observed_slot in
    let ids = timed_out last t.timeout_slots t.inner.pending in
    let chosen : contains j ids ≡ expires last t.timeout_slots (get j t.inner.pending) =
      contains-timed_out last t.timeout_slots t.inner.pending j g.inv.distinct in
    (
      chosen,
      rw (← chosen) (time_out_all_pending deserialize last now ids t.inner j),
      rw (← chosen) (time_out_all_rows deserialize last now ids t.inner t.db j),
    )

-- The bundle is due: it is still submitted, and its blockhash is older than the threshold.
abbrev pub Due : ℕ → ℕ → Option Pending → Type 0
Due last threshold none = ⊥
Due last threshold (some p) =
    (p.state ≡ submitted) × (p.blockhash_fetched_at_slot + threshold < last)

-- The class for a row: that of a bundle that never landed, with what is known of it.
abbrev pub unlanded : Deserialize → ℕ → Pending → Classification
unlanded deserialize last p = classify deserialize (
    never_landed p.submitted_slot p.blockhash_fetched_at_slot last p.tip_lamports p.tip_p50
      p.tip_p75 (from_status_str p.jito_inflight))

-- What the sweep does to one key: whether it returns it, what is tracked under it, and its row.
abbrev pub Sweeps :
    Deserialize
    → (last threshold : ℕ) → ℤ
    → (j : ℕ) → (before after : Option Pending) → (row row' : Option LogRow) → (returned : Bool)
    → Type 0
Sweeps deserialize last threshold now j before after row row' returned =
    (Due last threshold before
      × (returned ≡ true)
      × (after ≡ none)
      × ((p : Pending) × (before ≡ some p)
          × (row'
              ≡ map_option
                  (apply_write (failed_write j (unlanded deserialize last p) none none none now))
                  row)))
    ⊎ ((¬ Due last threshold before) × (returned ≡ false) × (after ≡ before) × (row' ≡ row))

submitted_lem : (s : Stage) → is_submitted s ≡ true → s ≡ submitted
submitted_lem submitted e = refl
submitted_lem processed e = cc
submitted_lem confirmed e = cc
submitted_lem finalized e = cc
submitted_lem failed e = cc

due_lem :
    (last threshold : ℕ) (p : Pending)
    → is_timed_out last threshold p ≡ true
    → Due last threshold (some p)
due_lem last threshold p e = (submitted_lem p.state (ground arith), ground arith)

not_due_lem :
    (last threshold : ℕ) (p : Pending)
    → is_timed_out last threshold p ≡ false
    → ¬ Due last threshold (some p)
not_due_lem last threshold p e (still, old) =
    let stage : is_submitted p.state ≡ true = rw still refl in
    let late : ltb threshold (last - p.blockhash_fetched_at_slot) ≡ true = ground arith in cc

Sweeps-expires :
    (deserialize : Deserialize) (last threshold : ℕ) (now : ℤ) (j : ℕ)
    (before after : Option Pending) (row row' : Option LogRow) (returned : Bool)
    → let due = expires last threshold before in
      (returned ≡ due)
        × (after ≡ (if due then none else before))
        × (row' ≡ timed_out_row deserialize last now due j before row)
      → Sweeps deserialize last threshold now j before after row row' returned
Sweeps-expires deserialize last threshold now j none after row row' returned (r, a, w) =
    inr ((λ d. d), r, a, w)
Sweeps-expires deserialize last threshold now j (some p) after row row' returned h =
    elim (Bool-cases (is_timed_out last threshold p)) [
      | inl e ↦ let (r, a, w) = rw e at h in inl (due_lem last threshold p e, r, a, (p, refl, w))
      | inr e ↦ let (r, a, w) = rw e at h in inr (not_due_lem last threshold p e, r, a, w)
    ]

-- The sweep of a good tracker does what a scan of all tracked bundles would do. It returns exactly
-- the bundles that are in the stage `Submitted` and whose blockhash was fetched more than the
-- threshold before the last observed slot; those leave the memory, and their rows get the class of a
-- bundle that never landed; every other bundle and row stays as it was.
pub check_timeouts_scan :
    (deserialize : Deserialize) (t : Tracker) (now : ℤ) (j : ℕ)
    → Good t
    → let r = check_timeouts deserialize t now in
      Sweeps deserialize t.inner.last_observed_slot t.timeout_slots now j
        (get j t.inner.pending)
        (get j r.0.inner.pending)
        (get j t.db.rows)
        (get j r.0.db.rows)
        (contains j r.1)
check_timeouts_scan deserialize t now j g =
    Sweeps-expires deserialize t.inner.last_observed_slot t.timeout_slots now j
      (get j t.inner.pending) _ (get j t.db.rows) _ _ (check_timeouts-expires deserialize t now j g)

-- A bundle whose recorded submission slot is the slot of its blockhash is never classed as expired.
pub timeout_never_expired :
    (deserialize : Deserialize) (last : ℕ) (p : Pending)
    → p.submitted_slot ≡ p.blockhash_fetched_at_slot
    → (classify deserialize (timeout_evidence last p)).kind ≢ expired_blockhash
unfolding classify
timeout_never_expired deserialize last p same e = absurd (
    ground (
      arith,
      (never_landed_expired_iff p.submitted_slot p.blockhash_fetched_at_slot last p.tip_lamports
            p.tip_p50 p.tip_p75 (from_status_str p.jito_inflight)).0
          e,
    ))

pub kind_label-expired :
    (k : FailureKind) → kind_label k ≡ "ExpiredBlockhash" → k ≡ expired_blockhash
unfolding kind_label
kind_label-expired expired_blockhash e = refl
kind_label-expired fee_too_low e = ground (arith, eq_iff "FeeTooLow" "ExpiredBlockhash")
kind_label-expired compute_exceeded e = ground (arith, eq_iff "ComputeExceeded" "ExpiredBlockhash")
kind_label-expired bundle_failure e = ground (arith, eq_iff "BundleFailure" "ExpiredBlockhash")
kind_label-expired transport_error e = ground (arith, eq_iff "TransportError" "ExpiredBlockhash")
kind_label-expired auction_lost e = ground (arith, eq_iff "AuctionLost" "ExpiredBlockhash")
