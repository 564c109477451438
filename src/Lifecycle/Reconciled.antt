-- ===== src/Lifecycle/Reconciled.antt =====
-- The catch-up after a stream gap keeps the memory's invariant and the mirror.
use solana_smart_tx.Base.{
  ℕ, ◌<◌, String, ◌≡◌, refl, Bool, true, false, Option, none, some, List, [], ◌∷◌,
}
use solana_smart_tx.Base.Int.{ℤ, u64_bound}
use solana_smart_tx.Base.Text.{Text}
use solana_smart_tx.Failure.OnChain.{Deserialize}
use solana_smart_tx.Failure.Types.{on_chain_error}
use solana_smart_tx.Lifecycle.Types.{Stage, processed, confirmed, finalized, Inner, Write}
use solana_smart_tx.Lifecycle.Machine.{mark_processed, mark_confirmed, mark_finalized}
use solana_smart_tx.Lifecycle.Invariant.{Inv}
use solana_smart_tx.Lifecycle.Preserved.{
  InvBut-cons, InvBut-cons_confirm, mark_processed-InvBut, mark_confirmed-InvBut,
  mark_finalized-InvBut,
}
use solana_smart_tx.Lifecycle.Store.{Database, persist}
use solana_smart_tx.Lifecycle.Hydrate.{stage_or_submitted}
use solana_smart_tx.Lifecycle.Tracker.{Tracker}
use solana_smart_tx.Lifecycle.Reconcile.{
  SigStatus, stage_of, is_due, when, noted, catch_up, persist_noted, reconcile_status,
  reconcile_row, unsettled, reconcile_rows, reconcile,
}
use solana_smart_tx.Lifecycle.Mirror.{
  Mirrors, persist_opt, Follows, mark_processed-Follows, mark_confirmed-Follows,
  mark_finalized-Follows,
}
use solana_smart_tx.Lifecycle.Operations.{Keyed, Good, persist-Keyed, fail_row-Good}

persist_noted-noted :
    (w : Option Write) (stage : Stage) (l : List (Write × Stage)) (db : Database)
    → persist_noted db (noted w stage l) ≡ persist_noted (persist_opt db w) l
persist_noted-noted none stage l db = refl
persist_noted-noted (some w) stage l db = refl

persist_noted-Keyed :
    (l : List (Write × Stage)) (db : Database) → Keyed db → Keyed (persist_noted db l)
persist_noted-Keyed [] db k = k
persist_noted-Keyed ((w, stage) ∷ l) db k =
    persist_noted-Keyed l (persist db w) (persist-Keyed w db k)

-- A transition that may be due keeps what it would keep.
when-Follows :
    (b : Bool) (mark : Inner → ℕ → Inner × Option Write) (db : Database) (inner : Inner) (id : ℕ)
    → Follows db (mark inner id)
    → Mirrors db inner
    → Follows db (when b mark inner id)
when-Follows true mark db inner id h m = h
when-Follows false mark db inner id h m = m

when-Inv :
    (b : Bool) (mark : Inner → ℕ → Inner × Option Write) (inner : Inner) (id : ℕ)
    → Inv (mark inner id).0
    → Inv inner
    → Inv (when b mark inner id).0
when-Inv true mark inner id h v = h
when-Inv false mark inner id h v = v

module _ (reached current : Stage) (slot : ℕ) (now : ℤ) (id : ℕ) where
  catch_up-Inv : (inner : Inner) → Inv inner → Inv (catch_up reached current slot now inner id).0
  unfolding catch_up
  catch_up-Inv inner v =
      let (i1, w1) =
        when (is_due reached current processed) (mark_processed slot now "reconcile") inner id in
      let (i2, w2) =
        when (is_due reached current confirmed) (mark_confirmed now "reconcile") i1 id in
      let v1 : Inv i1 =
        when-Inv (is_due reached current processed) (mark_processed slot now "reconcile") inner id
          (mark_processed-InvBut [] [] inner id slot now "reconcile" v) v in
      let v2 : Inv i2 =
        when-Inv (is_due reached current confirmed) (mark_confirmed now "reconcile") i1 id
          (mark_confirmed-InvBut [] [] i1 id now "reconcile" (InvBut-cons_confirm [] [] i1 id v1))
          v1 in
      when-Inv (is_due reached current finalized) (mark_finalized now "reconcile") i2 id
        (mark_finalized-InvBut [] [] i2 id now "reconcile" (InvBut-cons [] [] i2 id v2)) v2

  catch_up-Mirrors :
      (db : Database) (inner : Inner)
      → slot < u64_bound
      → Mirrors db inner
      → let r = catch_up reached current slot now inner id in Mirrors (persist_noted db r.1) r.0
  unfolding catch_up
  catch_up-Mirrors db inner fits m =
      let (i1, w1) =
        when (is_due reached current processed) (mark_processed slot now "reconcile") inner id in
      let (i2, w2) =
        when (is_due reached current confirmed) (mark_confirmed now "reconcile") i1 id in
      let (i3, w3) =
        when (is_due reached current finalized) (mark_finalized now "reconcile") i2 id in
      let m1 : Mirrors (persist_opt db w1) i1 =
        when-Follows (is_due reached current processed) (mark_processed slot now "reconcile") db
          inner id (mark_processed-Follows db inner id m slot now "reconcile" fits) m in
      let db1 : Database = persist_opt db w1 in
      let m2 : Mirrors (persist_opt db1 w2) i2 =
        when-Follows (is_due reached current confirmed) (mark_confirmed now "reconcile") db1 i1 id
          (mark_confirmed-Follows db1 i1 id m1 now "reconcile") m1 in
      let db2 : Database = persist_opt db1 w2 in
      let m3 : Mirrors (persist_opt db2 w3) i3 =
        when-Follows (is_due reached current finalized) (mark_finalized now "reconcile") db2 i2 id
          (mark_finalized-Follows db2 i2 id m2 now "reconcile") m2 in
      rw
        (
          persist_noted-noted w1 processed (noted w2 confirmed (noted w3 finalized [])) db,
          persist_noted-noted w2 confirmed (noted w3 finalized []) db1,
          persist_noted-noted w3 finalized [] db2,
        )
        m3

abbrev FitsReply : Option SigStatus → Type 0
FitsReply none = Unit {0}
FitsReply (some st) = st.slot < u64_bound

abbrev pub FitsReplies : List (Option SigStatus × ℤ) → Type 0
FitsReplies [] = Unit {0}
FitsReplies ((reply, now) ∷ replies) = FitsReply reply × FitsReplies replies

module _ (deserialize : Deserialize) where
  reconcile_status-Good :
      (t : Tracker) (id : ℕ) (current : Stage) (st : SigStatus) (err : Option Text) (now : ℤ)
      → st.slot < u64_bound
      → Good t
      → Good (reconcile_status deserialize t id current st err now).0
  reconcile_status-Good t id current st (some hex) now fits g =
      fail_row-Good deserialize t id (on_chain_error hex st.slot) _ _ _ now g
  reconcile_status-Good t id current st none now fits g = record {
    inv = catch_up-Inv (stage_of st.confirmation) current st.slot now id t.inner g.inv;
    mirror =
        catch_up-Mirrors (stage_of st.confirmation) current st.slot now id t.db t.inner fits
          g.mirror;
    keyed =
        persist_noted-Keyed (catch_up (stage_of st.confirmation) current st.slot now t.inner id).1
          t.db g.keyed;
  }

  reconcile_row-Good :
      (t : Tracker) (id : ℕ) (status : String) (reply : Option SigStatus) (now : ℤ)
      → FitsReply reply
      → Good t
      → Good (reconcile_row deserialize t id status reply now).0
  unfolding reconcile_row
  reconcile_row-Good t id status none now fits g = g
  reconcile_row-Good t id status (some st) now fits g =
      reconcile_status-Good t id (stage_or_submitted status) st st.err_hex now fits g

  reconcile_rows-Good :
      (t : Tracker) (rows : List (ℕ × String)) (replies : List (Option SigStatus × ℤ))
      → FitsReplies replies
      → Good t
      → Good (reconcile_rows deserialize t rows replies).0
  unfolding reconcile_rows
  reconcile_rows-Good t [] replies fits g = g
  reconcile_rows-Good t (row ∷ rows) [] fits g = g
  reconcile_rows-Good t ((id, status) ∷ rows) ((reply, now) ∷ replies) fits g =
      let (t', done) = reconcile_row deserialize t id status reply now in
      reconcile_rows-Good t' rows replies fits.1 (reconcile_row-Good t id status reply now fits.0 g)

  -- The reconcile pass keeps a good tracker good, whatever the RPC node replies, as long as the slots
  -- of the replies are `u64`s.
  pub reconcile-Good :
      (t : Tracker) (replies : List (Option SigStatus × ℤ))
      → FitsReplies replies
      → Good t
      → Good (reconcile deserialize t replies).0
  unfolding reconcile
  reconcile-Good t replies fits g = reconcile_rows-Good t (unsettled t.db.rows) replies fits g
