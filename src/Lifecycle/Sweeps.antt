-- ===== src/Lifecycle/Sweeps.antt =====
-- `record_jito_status` and `check_timeouts` keep the memory's invariant and the mirror.
use solana_smart_tx.Base.{ℕ, ◌≡◌, refl, inl, inr, Option, none, some, List, [], ◌∷◌, arith}
use solana_smart_tx.Base.Tests.{nat_eq, string_eq, ◌==◌, if◌then◌else◌, Option-cases}
use solana_smart_tx.Base.Int.{ℤ}
use solana_smart_tx.Base.Map.{get, insert, get-insert, insert-Distinct}
use solana_smart_tx.Base.Text.{Text}
use solana_smart_tx.Failure.OnChain.{Deserialize}
use solana_smart_tx.Failure.Classify.{classify}
use solana_smart_tx.Lifecycle.Types.{Pending, Inner}
use solana_smart_tx.Lifecycle.Machine.{map_option, mark_all}
use solana_smart_tx.Lifecycle.Invariant.{Inv, signatures-insert}
use solana_smart_tx.Lifecycle.Preserved.{forget-InvBut}
use solana_smart_tx.Lifecycle.Store.{LogRow, Database}
use solana_smart_tx.Lifecycle.Hydrate.{load}
use solana_smart_tx.Lifecycle.Tracker.{
  Tracker, with_jito, row_with_jito, jito_in_memory, record_jito_status, timeout_evidence,
  timed_out, time_out, check_timeouts,
}
use solana_smart_tx.Lifecycle.Mirror.{live, Mirrors, Follows, get-update_row, fail-Mirrors}
use solana_smart_tx.Lifecycle.Mirrored.{mark_all-Mirrors}
use solana_smart_tx.Lifecycle.Operations.{Good, update_row-Keyed, persist_all-Keyed}

jito-Inv :
    (inner : Inner) (id : ℕ) (status : Text) (p : Pending)
    → get id inner.pending ≡ some p
    → Inv inner
    → Inv (record inner { pending = insert id (with_jito status p) inner.pending })
jito-Inv inner id status p e v = record {
  distinct = insert-Distinct id _ inner.pending v.distinct;
  signatures = λ sig j.
      rw (signatures-insert inner id p (with_jito status p) e refl sig j) (v.signatures sig j);
  coherent = λ j q h. ground (arith, look j, v.coherent id p e, v.coherent j q);
  confirm_sound = λ s j h. ground (arith, look j, v.confirm_sound s j h);
  finalize_sound = λ s j h. ground (arith, look j, v.finalize_sound s j h);
  confirm_complete =
      λ s j q h t l. ground (arith, look j, v.confirm_complete s j q, v.confirm_complete s id p e);
  finalize_complete = λ s j q h t l.
      ground (arith, look j, v.finalize_complete s j q, v.finalize_complete s id p e);
}
  where
    look :
        (j : ℕ)
        → get j (insert id (with_jito status p) inner.pending)
          ≡ (if id == j then some (with_jito status p) else get j inner.pending)
    look j = get-insert id j (with_jito status p) inner.pending

live-jito :
    (status : Text) (o : Option LogRow)
    → live (map_option (row_with_jito status) o) ≡ map_option (with_jito status) (live o)
unfolding load
live-jito status none = refl
live-jito status (some row) = ground arith

-- A polled verdict is stored in memory and in the row, and keeps a good tracker good.
pub record_jito_status-Good :
    (t : Tracker) (id : ℕ) (status : Text) → Good t → Good (record_jito_status t id status)
unfolding record_jito_status jito_in_memory
record_jito_status-Good t id status g = elim (Option-cases (get id t.inner.pending)) [
  | inl e ↦
      rw (e, jito_in_memory)
        (record {
          inv = g.inv;
          mirror = λ j. ground (
            arith,
            g.mirror j,
            g.mirror id,
            get-update_row id j (row_with_jito status) t.db,
            live-jito status (get j t.db.rows),
          );
          keyed = update_row-Keyed id _ t.db g.keyed;
        })
  | inr (p, e) ↦
      rw (e, jito_in_memory)
        (record {
          inv = jito-Inv t.inner id status p e g.inv;
          mirror = λ j. ground (
            arith,
            g.mirror j,
            get-insert id j (with_jito status p) t.inner.pending,
            get-update_row id j (row_with_jito status) t.db,
            live-jito status (get j t.db.rows),
          );
          keyed = update_row-Keyed id _ t.db g.keyed;
        })
]

time_out-Follows :
    (deserialize : Deserialize) (last : ℕ) (now : ℤ) (db : Database) (inner : Inner) (id : ℕ)
    → Mirrors db inner
    → Follows db (time_out deserialize last now inner id)
unfolding time_out
time_out-Follows deserialize last now db inner id m = elim (Option-cases (get id inner.pending)) [
  | inl e ↦ rw (e, time_out) m
  | inr (p, e) ↦
      rw (e, time_out)
        (fail-Mirrors db inner id m (classify deserialize (timeout_evidence last p)) none none none
          now)
]

time_out-Inv :
    (deserialize : Deserialize) (last : ℕ) (now : ℤ) (inner : Inner) (id : ℕ)
    → Inv inner
    → Inv (time_out deserialize last now inner id).0
unfolding time_out
time_out-Inv deserialize last now inner id v = elim (Option-cases (get id inner.pending)) [
  | inl e ↦ rw (e, time_out) v
  | inr (p, e) ↦ rw (e, time_out) (forget-InvBut [] [] inner id v)
]

time_out_all-Inv :
    (deserialize : Deserialize) (last : ℕ) (now : ℤ) (ids : List ℕ) (inner : Inner)
    → Inv inner
    → Inv (mark_all (time_out deserialize last now) inner ids).0
unfolding mark_all
time_out_all-Inv deserialize last now [] inner v = v
time_out_all-Inv deserialize last now (id ∷ ids) inner v =
    time_out_all-Inv deserialize last now ids (time_out deserialize last now inner id).0
      (time_out-Inv deserialize last now inner id v)

-- The timeout sweep keeps a good tracker good.
pub check_timeouts-Good :
    (deserialize : Deserialize) (t : Tracker) (now : ℤ)
    → Good t
    → Good (check_timeouts deserialize t now).0
unfolding check_timeouts
check_timeouts-Good deserialize t now g =
    let last = t.inner.last_observed_slot in
    let ids = timed_out last t.timeout_slots t.inner.pending in
    record {
      inv = time_out_all-Inv deserialize last now ids t.inner g.inv;
      mirror =
          mark_all-Mirrors (time_out deserialize last now) (time_out-Follows deserialize last now)
            ids t.db t.inner g.mirror;
      keyed =
          persist_all-Keyed (mark_all (time_out deserialize last now) t.inner ids).1 t.db g.keyed;
    }
