-- ===== src/Orchestrator/Handled.antt =====
-- What becomes of the bundle that `submit_one` sends.
use solana_smart_tx.Base.{
  ℕ, ◌<◌, ◌≡◌, refl, String, true, ◌⊎◌, inl, inr, Option, none, some, List, [], ◌∷◌, arith,
}
use solana_smart_tx.Base.Tests.{nat_eq, string_eq}
use solana_smart_tx.Base.Int.{u64_bound, to_i64}
use solana_smart_tx.Base.Map.{get, get-remove}
use solana_smart_tx.Failure.Types.{submit_rejection, Classification, kind_label}
use solana_smart_tx.Failure.OnChain.{Deserialize}
use solana_smart_tx.Failure.Classify.{classify}
use solana_smart_tx.Leader.Types.{LeaderWindow, LeaderError}
use solana_smart_tx.Submitter.Types.{BundleRecord, SubmitError, BundleSpec, display}
use solana_smart_tx.Lifecycle.Types.{Inner}
use solana_smart_tx.Lifecycle.Machine.{forget, failed_write}
use solana_smart_tx.Lifecycle.Store.{LogRow, apply_write, new_row}
use solana_smart_tx.Lifecycle.Mirror.{get-persist}
use solana_smart_tx.Lifecycle.Cases.{forget_cases}
use solana_smart_tx.Lifecycle.Tracker.{Tracker, new_pending, record_submission, record_rejection}
use solana_smart_tx.Lifecycle.Operations.{Good, record_rejection-Good}
use solana_smart_tx.Lifecycle.Submissions.{
  FitsOption, FitsRecord, AddsRow, has_bundle, Recorded, record_submission-Recorded,
}
use solana_smart_tx.Orchestrator.Retry.{SubmitResult, accepted, refused}
use solana_smart_tx.Orchestrator.Pipeline.{
  rejection_marker, synthetic_record, Submission, skipped, untracked, unlogged, tracked, retrying,
  rejected_row, record_synthetic_rejection, after_accept, after_reject, settle, send_payload,
  in_window, submit_one,
}
use solana_smart_tx.Orchestrator.Payload.{
  PreFetchedSwap, SubmissionConfig, Moment, policy_at, priced, payload_for, left_staged,
}
use solana_smart_tx.Orchestrator.Sent.{Sends, PayloadFor, payload_for-PayloadFor}

-- What is assumed of the moment: numbers are `u64`s, and neither the submitter's signatures nor the
-- marker of a synthetic rejection are tracked.
pub record Fair (show : ℕ → String) (cfg : SubmissionConfig) (m : Moment) (t : Tracker)
    : Type 0 where
  pub tip : (policy_at cfg m).tip < u64_bound
  pub slot : (w : LeaderWindow) → m.window ≡ inr w → w.current_slot < u64_bound
  pub median : FitsOption (policy_at cfg m).p50
  pub upper : FitsOption (policy_at cfg m).p75
  pub fits :
      (s : BundleSpec) (slot : ℕ) (r : BundleRecord)
      → m.submit_bundle s slot ≡ accepted r
      → FitsRecord r (policy_at cfg m).p50 (policy_at cfg m).p75
  pub unseen :
      (s : BundleSpec) (slot : ℕ) (r : BundleRecord)
      → m.submit_bundle s slot ≡ accepted r
      → get r.memo_signature t.inner.by_sig ≡ none
  pub marker :
      (w : LeaderWindow)
      → m.window ≡ inr w
      → get (rejection_marker show w.current_slot m.rejection_seq) t.inner.by_sig ≡ none

get-forget_self : (inner : Inner) (id : ℕ) → get id (forget inner id).pending ≡ none
get-forget_self inner id =
    forget_cases inner id (λ i. get id i.pending ≡ none) (λ e. e)
      (λ p e. ground (arith, get-remove id id inner.pending))

module _ (deserialize : Deserialize) (show : ℕ → String) (cfg : SubmissionConfig) (m : Moment)
    (t : Tracker) (staged : Option PreFetchedSwap) (spec : BundleSpec) where
  -- The window in which `sent` was sent, and the reply.
  abbrev pub Replied : List BundleSpec → SubmitResult → BundleSpec → LeaderWindow → Type 0
  Replied all reply sent w =
      (m.window ≡ inr w)
      × (all ≡ sent ∷ [])
      × Sends cfg m w staged spec sent
      × (m.submit_bundle sent w.current_slot ≡ reply)

  -- The row of a rejection: its marker, its tip, and the failure with the class.
  abbrev pub LogsRejection : LeaderWindow → BundleSpec → Classification → LogRow → Type 0
  LogsRejection w sent c row =
      (row.bundle_id ≡ rejection_marker show w.current_slot m.rejection_seq)
      × (row.tip_lamports ≡ to_i64 sent.tip_lamports)
      × (row.submitted_slot ≡ to_i64 w.current_slot)
      × (row.status ≡ "Failed")
      × (row.failure_kind ≡ some (kind_label c.kind))
      × (row.failure_rationale ≡ some c.rationale)

  abbrev pub EndsIn : Tracker → List BundleSpec → Submission → Type 0
  EndsIn t' all skipped = (all ≡ []) × (t' ≡ t)
  EndsIn t' all untracked =
      (s : BundleSpec) × (w : LeaderWindow) × (r : BundleRecord) × Replied all (accepted r) s w
      × (has_bundle r.bundle_id t.db.rows ≡ true)
      × (t' ≡ t)
  EndsIn t' all (tracked row) =
      (s : BundleSpec) × (w : LeaderWindow) × (r : BundleRecord) × Replied all (accepted r) s w
      × Good t'
      × (get row t.inner.pending ≡ none)
      × (get row t'.inner.pending
          ≡ some (new_pending r (policy_at cfg m).p50 (policy_at cfg m).p75))
      × AddsRow t.db.rows t'.db.rows row (new_row r (policy_at cfg m).p50 (policy_at cfg m).p75)
  EndsIn t' all unlogged =
      (s : BundleSpec) × (w : LeaderWindow) × (e : SubmitError) × Replied all (refused e) s w
      × (has_bundle (rejection_marker show w.current_slot m.rejection_seq) t.db.rows ≡ true)
      × (t' ≡ t)
  EndsIn t' all (retrying row c evidence again slot) =
      (s : BundleSpec) × (w : LeaderWindow) × (e : SubmitError) × Replied all (refused e) s w
      × Good t'
      × (get row t.inner.pending ≡ none)
      × (get row t'.inner.pending ≡ none)
      × ((logged : LogRow) × AddsRow t.db.rows t'.db.rows row logged × LogsRejection w s c logged)
      × (evidence ≡ submit_rejection (display e))
      × (c ≡ classify deserialize evidence)
      × (again ≡ record s { fault = none })
      × (slot ≡ w.current_slot)

  accepted_lem :
      (s : BundleSpec) (w : LeaderWindow) (r : BundleRecord) (o : Option (Tracker × ℕ))
      → Replied (s ∷ []) (accepted r) s w
      → Recorded t r (policy_at cfg m).p50 (policy_at cfg m).p75 o
      → let u = after_accept deserialize show cfg m t (left_staged cfg.payload staged) s o in
        EndsIn u.tracker u.sent u.submission
  accepted_lem s w r none replied h = (s, w, r, replied, h, refl)
  accepted_lem s w r (some (t', row)) replied (good, new_id, absent, there, sig, row_new) =
      (s, w, r, replied, good, absent, there, row_new)

  failed_row :
      (s : BundleSpec) (w : LeaderWindow) (e : SubmitError) (t' : Tracker) (id : ℕ)
      → AddsRow t.db.rows t'.db.rows id (
          new_row
            (synthetic_record show s w.current_slot m.rejection_seq m.now)
            (policy_at cfg m).p50
            (policy_at cfg m).p75)
      → let c = classify deserialize (submit_rejection (display e)) in
        (logged : LogRow) × AddsRow t.db.rows
          (record_rejection deserialize t' id (display e) m.now).db.rows
          id
          logged
        × LogsRejection w s c logged
  unfolding record_rejection apply_write new_row failed_write
  failed_row s w e t' id (fresh, there, others) =
      let write =
        failed_write id (classify deserialize (submit_rejection (display e))) none none none
          m.now in
      let row =
        new_row (synthetic_record show s w.current_slot m.rejection_seq m.now) (policy_at cfg m).p50
          (policy_at cfg m).p75 in
      (
        apply_write write row,
        (
          fresh,
          ground (arith, get-persist write id t'.db, there),
          λ j other. ground (arith, get-persist write j t'.db, others j other),
        ),
        (refl, refl, refl, refl, refl, refl),
      )

  rejected_lem :
      (s : BundleSpec) (w : LeaderWindow) (e : SubmitError) (o : Option (Tracker × ℕ))
      → Replied (s ∷ []) (refused e) s w
      → Recorded t
          (synthetic_record show s w.current_slot m.rejection_seq m.now)
          (policy_at cfg m).p50
          (policy_at cfg m).p75
          o
      → let u =
          after_reject deserialize show cfg m t
            (left_staged cfg.payload staged)
            s
            w.current_slot
            (display e)
            (rejected_row deserialize show cfg m (display e) o) in
        EndsIn u.tracker u.sent u.submission
  unfolding record_rejection
  rejected_lem s w e none replied h = (s, w, e, replied, h, refl)
  rejected_lem s w e (some (t', id)) replied (good, new_id, absent, there, sig, row_new) = (
    s,
    w,
    e,
    replied,
    record_rejection-Good deserialize t' id (display e) m.now good,
    absent,
    get-forget_self t'.inner id,
    failed_row s w e t' id row_new,
    refl,
    refl,
    refl,
    refl,
  )

  settled :
      (fair : Fair show cfg m t) (good : Good t) (w : LeaderWindow) (s : BundleSpec)
      (reply : SubmitResult)
      → m.window ≡ inr w
      → Sends cfg m w staged spec s
      → m.submit_bundle s w.current_slot ≡ reply
      → let u =
          settle deserialize show cfg m t (left_staged cfg.payload staged) s w.current_slot reply in
        EndsIn u.tracker u.sent u.submission
  unfolding record_synthetic_rejection
  settled fair good w s (accepted r) open_window sends e =
      accepted_lem s w r (record_submission t r (policy_at cfg m).p50 (policy_at cfg m).p75)
        (open_window, refl, sends, e)
        (record_submission-Recorded t r (policy_at cfg m).p50 (policy_at cfg m).p75
          (fair.fits s w.current_slot r e) (fair.unseen s w.current_slot r e) good)
  settled fair good w s (refused x) open_window sends e =
      rejected_lem s w x
        (record_submission t (synthetic_record show s w.current_slot m.rejection_seq m.now)
          (policy_at cfg m).p50 (policy_at cfg m).p75)
        (open_window, refl, sends, e)
        (record_submission-Recorded t (synthetic_record show s w.current_slot m.rejection_seq m.now)
          (policy_at cfg m).p50 (policy_at cfg m).p75
          (record {
            tip = omega (arith, fair.tip, sends.tip);
            slot = fair.slot w open_window;
            median = fair.median;
            upper = fair.upper;
          })
          (fair.marker w open_window) good)

  paid :
      (fair : Fair show cfg m t) (good : Good t) (w : LeaderWindow) (o : Option BundleSpec)
      → m.window ≡ inr w
      → PayloadFor cfg m w staged spec o
      → let u =
          send_payload deserialize show cfg m t (left_staged cfg.payload staged) w.current_slot o in
        EndsIn u.tracker u.sent u.submission
  paid fair good w none open_window p = (refl, refl)
  paid fair good w (some s) open_window sends =
      settled fair good w s (m.submit_bundle s w.current_slot) open_window sends refl

  windowed :
      (fair : Fair show cfg m t) (good : Good t) (window : LeaderError ⊎ LeaderWindow)
      → m.window ≡ window
      → let u = in_window deserialize show cfg m t staged spec window in
        EndsIn u.tracker u.sent u.submission
  windowed fair good (inl e) h = (refl, refl)
  windowed fair good (inr w) h =
      paid fair good w
        (payload_for cfg.payload w.current_slot staged m.swap_payload (priced cfg m w.is_bam spec))
        h (payload_for-PayloadFor cfg m w spec staged cfg.payload refl)

  -- On a good tracker, with numbers that are `u64`s and signatures that are not tracked, a submission
  -- sends one bundle or none. The bundle has the tip of the policy, within the cap; it pays a priority
  -- fee only to a BAM leader, and only if that is enabled; in swap mode its payload is a staged swap of
  -- at most 50 slots or one fetched in the window. If it is accepted, it is tracked under a new key and
  -- one row is new, its own; or its id has a row already and nothing is recorded. If it is refused, one
  -- row is new, which is not tracked and says `Failed` with the marker, the tip and the class, and it goes to the retry loop without its fault, with the class of the submitter's error;
  -- or its marker has a row already and nothing is recorded. The tracker stays good, and stays as it
  -- was where nothing is sent.
  pub submit_one-EndsIn :
      Fair show cfg m t
      → Good t
      → EndsIn
          (submit_one deserialize show cfg m t staged spec).tracker
          (submit_one deserialize show cfg m t staged spec).sent
          (submit_one deserialize show cfg m t staged spec).submission
  unfolding submit_one
  submit_one-EndsIn fair good = windowed fair good m.window refl
