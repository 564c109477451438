-- ===== src/Lifecycle/Mirrored.antt =====
-- A stream event keeps the mirror, once its writes are persisted in order.
use solana_smart_tx.Base.{ℕ, ◌<◌, ◌≡◌, refl, inl, inr, Option, none, some, List, [], ◌∷◌, ◌++◌}
use solana_smart_tx.Base.Tests.{nat_eq, string_eq, Option-cases}
use solana_smart_tx.Base.Int.{ℤ, ◌-ℤ◌, to_i64, u64_bound}
use solana_smart_tx.Base.Map.{get}
use solana_smart_tx.Base.Text.{Text}
use solana_smart_tx.Failure.Types.{Classification, on_chain_error}
use solana_smart_tx.Failure.OnChain.{Deserialize}
use solana_smart_tx.Failure.Classify.{classify}
use solana_smart_tx.Stream.Types.{SlotStatus, TxStatusUpdate, StreamEvent, slot_event, tx_status}
use solana_smart_tx.Lifecycle.Types.{Inner, Write, to_millis}
use solana_smart_tx.Lifecycle.Index.{drain_le}
use solana_smart_tx.Lifecycle.Machine.{
  mark_processed, mark_confirmed, mark_finalized, fail_landed, mark_all, opt_cons, observe,
  apply_slot, apply_confirmed, apply_finalized, apply_landing, apply_tx, apply_event,
}
use solana_smart_tx.Lifecycle.Cases.{fail_landed_cases}
use solana_smart_tx.Lifecycle.Store.{Database, persist_all}
use solana_smart_tx.Lifecycle.Mirror.{
  Mirrors, persist_opt, Follows, mark_processed-Follows, mark_confirmed-Follows,
  mark_finalized-Follows, forgotten-Mirrors,
}

fail_landed-Follows :
    (db : Database) (inner : Inner) (id : ℕ) (c : Classification) (slot : ℕ) (at : ℤ)
    → Mirrors db inner
    → Follows db (fail_landed c slot at inner id)
fail_landed-Follows db inner id c slot at m =
    fail_landed_cases inner id (Follows db) c slot at (λ _. m)
      λ p e st.
        forgotten-Mirrors db inner id m p c (some (to_i64 slot)) (some at)
          (some (at -ℤ p.submitted_at_ms)) at

persist_all-opt_cons :
    (w : Option Write) (ws : List Write) (db : Database)
    → persist_all db (opt_cons w ws) ≡ persist_all (persist_opt db w) ws
unfolding persist_all
persist_all-opt_cons none ws db = refl
persist_all-opt_cons (some w) ws db = refl

-- A loop of steps that each keep the mirror keeps it.
pub mark_all-Mirrors :
    (mark : Inner → ℕ → Inner × Option Write)
    → ((db : Database) (inner : Inner) (id : ℕ) → Mirrors db inner → Follows db (mark inner id))
    → (ids : List ℕ) (db : Database) (inner : Inner) → Mirrors db inner
    → Mirrors (persist_all db (mark_all mark inner ids).1) (mark_all mark inner ids).0
unfolding mark_all persist_all
mark_all-Mirrors mark keeps [] db inner m = m
mark_all-Mirrors mark keeps (id ∷ ids) db inner m =
    let (inner', w) = mark inner id in
    rw (persist_all-opt_cons w (mark_all mark inner' ids).1 db)
      (mark_all-Mirrors mark keeps ids (persist_opt db w) inner' (keeps db inner id m))

apply_slot-Mirrors :
    (status : SlotStatus) (n : ℕ) (at : ℤ) (db : Database) (inner : Inner)
    → Mirrors db inner
    → Mirrors (persist_all db (apply_slot status n at inner).1) (apply_slot status n at inner).0
unfolding apply_slot apply_confirmed apply_finalized persist_all
apply_slot-Mirrors SlotStatus.confirmed n at db inner m =
    mark_all-Mirrors (mark_confirmed at "stream")
      (λ db inner id m. mark_confirmed-Follows db inner id m at "stream")
      (drain_le n inner.confirm_index).0 db _ m
apply_slot-Mirrors SlotStatus.finalized n at db inner m =
    mark_all-Mirrors (mark_finalized at "stream")
      (λ db inner id m. mark_finalized-Follows db inner id m at "stream")
      ((drain_le n inner.finalize_index).0 ++ (drain_le n inner.confirm_index).0) db _ m
apply_slot-Mirrors _ n at db inner m = m

-- An event whose slot is a `u64`.
abbrev pub Fits : StreamEvent → Type 0
Fits (slot_event s) = Unit {0}
Fits (tx_status tx) = tx.slot < u64_bound

module _ (deserialize : Deserialize) where
  apply_landing-Mirrors :
      (err : Option Text) (slot : ℕ) (at : ℤ) (db : Database) (inner : Inner) (id : ℕ)
      → slot < u64_bound
      → Mirrors db inner
      → let r = apply_landing deserialize err slot at inner id in Mirrors (persist_all db r.1) r.0
  unfolding apply_landing persist_all
  apply_landing-Mirrors none slot at db inner id fits m =
      rw (persist_all-opt_cons (mark_processed slot at "stream" inner id).1 [] db)
        (mark_processed-Follows db inner id m slot at "stream" fits)
  apply_landing-Mirrors (some hex) slot at db inner id fits m =
      let c = classify deserialize (on_chain_error hex slot) in
      rw (persist_all-opt_cons (fail_landed c slot at inner id).1 [] db)
        (fail_landed-Follows db inner id c slot at m)

  apply_tx-Mirrors :
      (tx : TxStatusUpdate) (db : Database) (inner : Inner)
      → tx.slot < u64_bound
      → Mirrors db inner
      → let r = apply_tx deserialize tx inner in Mirrors (persist_all db r.1) r.0
  unfolding apply_tx persist_all
  apply_tx-Mirrors tx db inner fits m = elim (Option-cases (get tx.signature inner.by_sig)) [
    | inl e ↦ rw (e, apply_tx) m
    | inr (id, e) ↦
        rw (e, apply_tx)
          (apply_landing-Mirrors tx.err tx.slot (to_millis tx.received_at) db inner id fits m)
  ]

  -- An event whose slot is a `u64` keeps the mirror: if the rows that are not terminal are the
  -- tracked bundles, field by field, they are so again once its writes are persisted in order.
  pub apply_event-Mirrors :
      (event : StreamEvent) (db : Database) (inner : Inner)
      → Fits event
      → Mirrors db inner
      → let r = apply_event deserialize inner event in Mirrors (persist_all db r.1) r.0
  unfolding apply_event observe
  apply_event-Mirrors (slot_event s) db inner fits m =
      apply_slot-Mirrors s.status s.slot (to_millis s.received_at) db _ m
  apply_event-Mirrors (tx_status tx) db inner fits m = apply_tx-Mirrors tx db inner fits m
