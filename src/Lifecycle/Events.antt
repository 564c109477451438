-- ===== src/Lifecycle/Events.antt =====
-- The invariant over whole events: the drains hand their ids to the transitions.
use solana_smart_tx.Base.{
  ℕ, ◌≡◌, inl, inr, true, ◌||◌, Option, none, some, List, [], ◌∷◌, ◌++◌, arith,
}
use solana_smart_tx.Base.Tests.{nat_eq, string_eq, leb, Bool-cases, Option-cases}
use solana_smart_tx.Base.Int.{ℤ}
use solana_smart_tx.Base.Lists.{contains, contains-append}
use solana_smart_tx.Base.Map.{get}
use solana_smart_tx.Base.Text.{Text}
use solana_smart_tx.Failure.OnChain.{Deserialize}
use solana_smart_tx.Failure.Types.{on_chain_error}
use solana_smart_tx.Failure.Classify.{classify}
use solana_smart_tx.Stream.Types.{SlotStatus, TxStatusUpdate, StreamEvent, slot_event, tx_status}
use solana_smart_tx.Lifecycle.Types.{Inner, to_millis}
use solana_smart_tx.Lifecycle.Index.{holds, drain_le, holds-drain_le, drained_of_holds}
use solana_smart_tx.Lifecycle.Machine.{
  mark_confirmed, mark_finalized, mark_all, observe, apply_confirmed, apply_finalized, apply_slot,
  apply_landing, apply_tx, apply_event,
}
use solana_smart_tx.Lifecycle.Invariant.{InvBut, Inv}
use solana_smart_tx.Lifecycle.Preserved.{
  mark_processed-InvBut, mark_confirmed-InvBut, mark_finalized-InvBut, fail_landed-InvBut,
}

-- What a drained index no longer shows waits in the list of drained ids.
drained_or_held :
    (n s i : ℕ) (ix : List (ℕ × List ℕ))
    → holds s i ix ≡ true
    → (holds s i (drain_le n ix).1 || contains i (drain_le n ix).0) ≡ true
drained_or_held n s i ix h = elim (Bool-cases (leb s n)) [
  | inl le ↦ ground (arith, drained_of_holds n s i ix (ground arith) h)
  | inr gt ↦ ground (arith, holds-drain_le n s i ix)
]

confirm_drain-InvBut :
    (n : ℕ) (inner : Inner)
    → Inv inner
    → InvBut
        (drain_le n inner.confirm_index).0
        []
        (record inner { confirm_index = (drain_le n inner.confirm_index).1 })
unfolding contains
confirm_drain-InvBut n inner v = record {
  distinct = v.distinct;
  signatures = v.signatures;
  coherent = v.coherent;
  confirm_sound =
      λ s j h. ground (arith, holds-drain_le n s j inner.confirm_index, v.confirm_sound s j);
  finalize_sound = v.finalize_sound;
  confirm_complete = λ s j q h t l.
      drained_or_held n s j inner.confirm_index (ground (arith, v.confirm_complete s j q h t l));
  finalize_complete = v.finalize_complete;
}

finalize_drain-InvBut :
    (n : ℕ) (inner : Inner)
    → Inv inner
    → let ids = (drain_le n inner.finalize_index).0 ++ (drain_le n inner.confirm_index).0 in
      InvBut ids ids (record inner {
        finalize_index = (drain_le n inner.finalize_index).1;
        confirm_index = (drain_le n inner.confirm_index).1;
      })
unfolding contains
finalize_drain-InvBut n inner v = record {
  distinct = v.distinct;
  signatures = v.signatures;
  coherent = v.coherent;
  confirm_sound =
      λ s j h. ground (arith, holds-drain_le n s j inner.confirm_index, v.confirm_sound s j);
  finalize_sound =
      λ s j h. ground (arith, holds-drain_le n s j inner.finalize_index, v.finalize_sound s j);
  confirm_complete = λ s j q h t l. ground (
    arith,
    drained_or_held n s j inner.confirm_index (ground (arith, v.confirm_complete s j q h t l)),
    contains-append j (drain_le n inner.finalize_index).0 (drain_le n inner.confirm_index).0,
  );
  finalize_complete = λ s j q h t l. ground (
    arith,
    drained_or_held n s j inner.finalize_index (ground (arith, v.finalize_complete s j q h t l)),
    contains-append j (drain_le n inner.finalize_index).0 (drain_le n inner.confirm_index).0,
  );
}

confirm_all-Inv :
    (at : ℤ) (ids f : List ℕ) (inner : Inner)
    → InvBut ids f inner
    → InvBut [] f (mark_all (mark_confirmed at "stream") inner ids).0
unfolding mark_all
confirm_all-Inv at [] f inner v = v
confirm_all-Inv at (id ∷ ids) f inner v =
    confirm_all-Inv at ids f (mark_confirmed at "stream" inner id).0
      (mark_confirmed-InvBut ids f inner id at "stream" v)

finalize_all-Inv :
    (at : ℤ) (ids : List ℕ) (inner : Inner)
    → InvBut ids ids inner
    → Inv (mark_all (mark_finalized at "stream") inner ids).0
unfolding mark_all
finalize_all-Inv at [] inner v = v
finalize_all-Inv at (id ∷ ids) inner v =
    finalize_all-Inv at ids (mark_finalized at "stream" inner id).0
      (mark_finalized-InvBut ids ids inner id at "stream" v)

pub observe-Inv : (slot : ℕ) (inner : Inner) → Inv inner → Inv (observe slot inner)
unfolding observe
observe-Inv slot inner v = record {
  distinct = v.distinct;
  signatures = v.signatures;
  coherent = v.coherent;
  confirm_sound = v.confirm_sound;
  finalize_sound = v.finalize_sound;
  confirm_complete = v.confirm_complete;
  finalize_complete = v.finalize_complete;
}

apply_confirmed-Inv :
    (n : ℕ) (at : ℤ) (inner : Inner) → Inv inner → Inv (apply_confirmed n at inner).0
unfolding apply_confirmed
apply_confirmed-Inv n at inner v =
    confirm_all-Inv at (drain_le n inner.confirm_index).0 [] _ (confirm_drain-InvBut n inner v)

apply_finalized-Inv :
    (n : ℕ) (at : ℤ) (inner : Inner) → Inv inner → Inv (apply_finalized n at inner).0
unfolding apply_finalized
apply_finalized-Inv n at inner v = finalize_all-Inv at _ _ (finalize_drain-InvBut n inner v)

apply_slot-Inv :
    (status : SlotStatus) (n : ℕ) (at : ℤ) (inner : Inner)
    → Inv inner
    → Inv (apply_slot status n at inner).0
unfolding apply_slot
apply_slot-Inv SlotStatus.confirmed n at inner v = apply_confirmed-Inv n at inner v
apply_slot-Inv SlotStatus.finalized n at inner v = apply_finalized-Inv n at inner v
apply_slot-Inv _ n at inner v = v

module _ (deserialize : Deserialize) where
  apply_landing-Inv :
      (err : Option Text) (slot : ℕ) (at : ℤ) (inner : Inner) (id : ℕ)
      → Inv inner
      → Inv (apply_landing deserialize err slot at inner id).0
  unfolding apply_landing
  apply_landing-Inv none slot at inner id v =
      mark_processed-InvBut [] [] inner id slot at "stream" v
  apply_landing-Inv (some hex) slot at inner id v =
      fail_landed-InvBut [] [] inner id (classify deserialize (on_chain_error hex slot)) slot at v

  apply_tx-Inv :
      (tx : TxStatusUpdate) (inner : Inner) → Inv inner → Inv (apply_tx deserialize tx inner).0
  unfolding apply_tx
  apply_tx-Inv tx inner v = elim (Option-cases (get tx.signature inner.by_sig)) [
    | inl e ↦ rw (e, apply_tx) v
    | inr (id, e) ↦
        rw (e, apply_tx) (apply_landing-Inv tx.err tx.slot (to_millis tx.received_at) inner id v)
  ]

  -- Every stream event keeps the invariant of the memory: the signature index and the two slot
  -- indices agree with the tracked bundles, and no tracked bundle is in a terminal stage.
  pub apply_event-Inv :
      (inner : Inner) (event : StreamEvent)
      → Inv inner
      → Inv (apply_event deserialize inner event).0
  unfolding apply_event
  apply_event-Inv inner (slot_event s) v =
      apply_slot-Inv s.status s.slot (to_millis s.received_at) (observe s.slot inner)
        (observe-Inv s.slot inner v)
  apply_event-Inv inner (tx_status tx) v = apply_tx-Inv tx inner v
