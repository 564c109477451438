-- ===== src/Lifecycle/Operations.antt =====
-- Every operation of the tracker keeps the memory's invariant and the mirror.
use solana_smart_tx.Base.{ℕ, ◌≤◌, ◌≡◌, inl, inr, Option, none, List, [], ◌∷◌, arith}
use solana_smart_tx.Base.Tests.{nat_eq, string_eq, Option-cases}
use solana_smart_tx.Base.Int.{ℤ}
use solana_smart_tx.Base.Map.{get, Distinct, get-insert, insert-Distinct}
use solana_smart_tx.Base.Text.{Text}
use solana_smart_tx.Failure.OnChain.{Deserialize}
use solana_smart_tx.Failure.Types.{Evidence, submit_rejection}
use solana_smart_tx.Failure.Classify.{classify}
use solana_smart_tx.Stream.Types.{StreamEvent}
use solana_smart_tx.Lifecycle.Types.{Write, target}
use solana_smart_tx.Lifecycle.Machine.{failed_write, apply_event}
use solana_smart_tx.Lifecycle.Invariant.{Inv}
use solana_smart_tx.Lifecycle.Preserved.{forget-InvBut}
use solana_smart_tx.Lifecycle.Events.{apply_event-Inv}
use solana_smart_tx.Lifecycle.Store.{LogRow, Database, update_row, persist, persist_all}
use solana_smart_tx.Lifecycle.Tracker.{Tracker, fail_row, record_rejection, ingest_and_persist}
use solana_smart_tx.Lifecycle.Mirror.{Mirrors, fail-Mirrors}
use solana_smart_tx.Lifecycle.Mirrored.{Fits, apply_event-Mirrors}

-- No row has a key that AUTOINCREMENT is yet to give out, and no key has two rows.
pub record Keyed (db : Database) : Type 0 where
  pub fresh : (j : ℕ) → db.next_id ≤ j → get j db.rows ≡ none
  pub unique : Distinct db.rows

-- What holds of a tracker between two operations.
pub record Good (t : Tracker) : Type 0 where
  pub inv : Inv t.inner
  pub mirror : Mirrors t.db t.inner
  pub keyed : Keyed t.db

pub update_row-Keyed :
    (id : ℕ) (change : LogRow → LogRow) (db : Database) → Keyed db → Keyed (update_row id change db)
unfolding update_row
update_row-Keyed id change db k = elim (Option-cases (get id db.rows)) [
  | inl e ↦ rw (e, update_row) k
  | inr (row, e) ↦
      rw (e, update_row)
        (record {
          fresh = λ j le. ground (arith, get-insert id j (change row) db.rows, k.fresh j le);
          unique = insert-Distinct id (change row) db.rows k.unique;
        })
]

pub persist-Keyed : (w : Write) (db : Database) → Keyed db → Keyed (persist db w)
unfolding persist
persist-Keyed w db k = update_row-Keyed (target w) _ db k

pub persist_all-Keyed : (ws : List Write) (db : Database) → Keyed db → Keyed (persist_all db ws)
unfolding persist_all
persist_all-Keyed [] db k = k
persist_all-Keyed (w ∷ ws) db k = persist_all-Keyed ws (persist db w) (persist-Keyed w db k)

-- Every stream event keeps a good tracker good, its writes persisted in order.
pub ingest_and_persist-Good :
    (deserialize : Deserialize) (t : Tracker) (event : StreamEvent)
    → Fits event
    → Good t
    → Good (ingest_and_persist deserialize t event)
unfolding ingest_and_persist
ingest_and_persist-Good deserialize t event fits g = record {
  inv = apply_event-Inv deserialize t.inner event g.inv;
  mirror = apply_event-Mirrors deserialize event t.db t.inner fits g.mirror;
  keyed = persist_all-Keyed (apply_event deserialize t.inner event).1 t.db g.keyed;
}

pub fail_row-Good :
    (deserialize : Deserialize) (t : Tracker) (id : ℕ) (e : Evidence) (slot at delta : Option ℤ)
    (now : ℤ)
    → Good t
    → Good (fail_row t id (failed_write id (classify deserialize e) slot at delta now))
fail_row-Good deserialize t id e slot at delta now g = record {
  inv = forget-InvBut [] [] t.inner id g.inv;
  mirror = fail-Mirrors t.db t.inner id g.mirror (classify deserialize e) slot at delta now;
  keyed = persist-Keyed _ t.db g.keyed;
}

pub record_rejection-Good :
    (deserialize : Deserialize) (t : Tracker) (id : ℕ) (raw_error : Text) (now : ℤ)
    → Good t
    → Good (record_rejection deserialize t id raw_error now)
unfolding record_rejection
record_rejection-Good deserialize t id raw_error now g =
    fail_row-Good deserialize t id (submit_rejection raw_error) none none none now g
