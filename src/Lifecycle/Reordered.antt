-- ===== src/Lifecycle/Reordered.antt =====
-- crates/lifecycle/src/lib.rs, `ingest`: each write of an event runs in a task of its own, so the
-- writes of two events may reach the database in either order.
use solana_smart_tx.Base.{
  ℕ, ◌≤◌, String, ◌≡◌, ◌≢◌, refl, sym, ◌∙◌, inl, inr, true, Option, none, some, List, [], ◌∷◌,
  arith,
}
use solana_smart_tx.Base.Tests.{nat_eq, string_eq, Option-cases}
use solana_smart_tx.Base.Int.{ℤ, ◌-ℤ◌, to_i64}
use solana_smart_tx.Base.Map.{get, get-insert}
use solana_smart_tx.Failure.OnChain.{Deserialize}
use solana_smart_tx.Stream.Types.{SlotStatus, SlotUpdate, TxStatusUpdate, slot_event, tx_status}
use solana_smart_tx.Lifecycle.Types.{submitted, Pending, Inner, Write, set_processed, to_millis}
use solana_smart_tx.Lifecycle.Machine.{
  to_processed, mark_processed, apply_event, apply_tx, apply_landing, apply_slot, observe,
}
use solana_smart_tx.Lifecycle.Invariant.{Inv}
use solana_smart_tx.Lifecycle.Events.{observe-Inv, apply_event-Inv}
use solana_smart_tx.Lifecycle.Commitment.{landed_by, apply_finalized_scan}
use solana_smart_tx.Lifecycle.Store.{LogRow, Database, apply_write, persist, persist_all}
use solana_smart_tx.Lifecycle.Hydrate.{non_terminal}
use solana_smart_tx.Lifecycle.Mirror.{Mirrors, live, get-persist}

abbrev pub status_of : Option LogRow → Option String
status_of none = none
status_of (some row) = some row.status

-- No write makes or deletes a row.
status-persist_all :
    (ws : List Write) (db : Database) (j : ℕ)
    → get j db.rows ≢ none
    → get j (persist_all db ws).rows ≢ none
unfolding persist_all
status-persist_all [] db j h = h
status-persist_all (w ∷ ws) db j h = status-persist_all ws (persist db w) j (kept (get j db.rows) h)
  where
    kept : (o : Option LogRow) → get j db.rows ≢ none → get j (persist db w).rows ≢ none
    kept o h e = h (ground (arith, get-persist w j db))

-- The landing of a submitted bundle: its write, and the record in memory.
landed_lem :
    (deserialize : Deserialize) (inner : Inner) (tx : TxStatusUpdate) (id : ℕ) (p : Pending)
    → get tx.signature inner.by_sig ≡ some id
    → get id inner.pending ≡ some p
    → p.state ≡ submitted
    → tx.err ≡ none
    → let r = apply_event deserialize inner (tx_status tx) in
      let at = to_millis tx.received_at in
      (r.1 ≡ set_processed id at (to_i64 tx.slot) (some (at -ℤ p.submitted_at_ms)) "stream" ∷ [])
      × (get id r.0.pending ≡ some (to_processed p tx.slot at))
unfolding apply_event apply_tx apply_landing mark_processed
landed_lem deserialize inner tx id p sig e st ok =
    rw (sig, apply_event, apply_tx, ok, apply_landing, e, mark_processed)
      (rw st (
        refl,
        ground (
          arith,
          get-insert id id (to_processed p tx.slot (to_millis tx.received_at)) inner.pending,
        ),
      ))

status-set_processed :
    (db : Database) (id : ℕ) (at slot : ℤ) (delta : Option ℤ) (source : String)
    → get id db.rows ≢ none
    → status_of (get id (persist db (set_processed id at slot delta source)).rows)
      ≡ some "Processed"
unfolding apply_write
status-set_processed db id at slot delta source h = elim (Option-cases (get id db.rows)) [
  | inl e ↦ absurd (h e)
  | inr (row, e) ↦ rw (get-persist (set_processed id at slot delta source) id db, e) (ground arith)
]

finalized_lem :
    (deserialize : Deserialize) (inner : Inner) (s : SlotUpdate) (id : ℕ) (q : Pending)
    → Inv inner
    → get id inner.pending ≡ some q
    → landed_by s.slot q.landed_slot ≡ true
    → s.status ≡ SlotStatus.finalized
    → get id (apply_event deserialize inner (slot_event s)).0.pending ≡ none
unfolding apply_event apply_slot observe
finalized_lem deserialize inner s id q v e by fin =
    rw (fin, apply_event, apply_slot)
      (ground (
        arith,
        apply_finalized_scan s.slot (to_millis s.received_at) (observe s.slot inner) id
            (observe-Inv s.slot inner v),
      ))

live_of_processed : (o : Option LogRow) → status_of o ≡ some "Processed" → live o ≢ none
unfolding non_terminal
live_of_processed none e = cc
live_of_processed (some row) e =
    let at_processed : row.status ≡ "Processed" = cc in rw at_processed (λ h. cc)

-- A bundle lands, its slot is finalized, and the tasks that persist the two events run in the other
-- order: the memory no longer tracks the bundle, and its row says `Processed`, so that the rows no
-- longer mirror the memory.
pub ingest_reordered :
    (deserialize : Deserialize) (db : Database) (inner : Inner) (tx : TxStatusUpdate)
    (s : SlotUpdate) (id : ℕ) (p : Pending)
    → Inv inner
    → Mirrors db inner
    → get tx.signature inner.by_sig ≡ some id
    → get id inner.pending ≡ some p
    → p.state ≡ submitted
    → tx.err ≡ none
    → s.status ≡ SlotStatus.finalized
    → tx.slot ≤ s.slot
    → let (i1, w1) = apply_event deserialize inner (tx_status tx) in
      let (i2, w2) = apply_event deserialize i1 (slot_event s) in
      (get id i2.pending ≡ none)
      × (status_of (get id (persist_all (persist_all db w2) w1).rows) ≡ some "Processed")
      × (¬ Mirrors (persist_all (persist_all db w2) w1) i2)
unfolding persist_all
ingest_reordered deserialize db inner tx s id p v m sig e st ok fin le =
    let (i1, w1) = apply_event deserialize inner (tx_status tx) in
    let (i2, w2) = apply_event deserialize i1 (slot_event s) in
    let (written, landed) = landed_lem deserialize inner tx id p sig e st ok in
    let gone : get id i2.pending ≡ none =
      finalized_lem deserialize i1 s id (to_processed p tx.slot (to_millis tx.received_at))
        (apply_event-Inv deserialize inner (tx_status tx) v) landed (ground arith) fin in
    let there : get id (persist_all db w2).rows ≢ none =
      status-persist_all w2 db id (λ no. ground (arith, m id)) in
    let status : status_of (get id (persist_all (persist_all db w2) w1).rows) ≡ some "Processed" =
      rw written (status-set_processed (persist_all db w2) id _ _ _ "stream" there) in
    (gone, status, λ mirror. live_of_processed _ status (sym (mirror id) ∙ gone))
