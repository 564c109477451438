-- ===== src/Lifecycle/Recovery.antt =====
-- Crash recovery: `hydrate` rebuilds from the rows what the memory held.
use solana_smart_tx.Base.{ℕ, ◌≡◌, refl, inl, inr, Option, none, some, [], ◌∷◌, arith}
use solana_smart_tx.Base.Tests.{nat_eq, string_eq, ◌==◌, if◌then◌else◌, Bool-cases}
use solana_smart_tx.Base.Lists.{contains}
use solana_smart_tx.Base.Map.{Map, get, insert, Distinct, get-insert, insert-Distinct}
use solana_smart_tx.Lifecycle.Types.{
  Stage, submitted, processed, confirmed, finalized, failed, Pending, Inner,
}
use solana_smart_tx.Lifecycle.Index.{holds-put}
use solana_smart_tx.Lifecycle.Invariant.{Coherent, InvBut, Inv}
use solana_smart_tx.Lifecycle.Store.{LogRow}
use solana_smart_tx.Lifecycle.Hydrate.{
  non_terminal, load, index_stage, hydrate_row, hydrate_rows, empty_inner, hydrate,
}
use solana_smart_tx.Lifecycle.Tracker.{Tracker, track}
use solana_smart_tx.Lifecycle.Operations.{Good}

index_stage_pending :
    (stage : Stage) (slot : Option ℕ) (id : ℕ) (inner : Inner)
    → (index_stage stage slot id inner).pending ≡ inner.pending
index_stage_pending processed (some s) id inner = refl
index_stage_pending confirmed (some s) id inner = refl
index_stage_pending processed none id inner = refl
index_stage_pending confirmed none id inner = refl
index_stage_pending _ _ id inner = refl

pub hydrate_row_pending :
    (inner : Inner) (id : ℕ) (row : LogRow)
    → (hydrate_row inner id row).pending ≡ insert id (load row) inner.pending
unfolding hydrate_row
hydrate_row_pending inner id row = index_stage_pending (load row).state (load row).landed_slot id _

-- The row of an id, or else what the memory had.
abbrev overlay : Option LogRow → Option Pending → Option Pending
overlay none q = q
overlay (some row) q = if non_terminal row.status then some (load row) else q

hydrate_rows_lem :
    (rows : Map ℕ LogRow) (inner : Inner) (j : ℕ)
    → Distinct rows
    → get j (hydrate_rows inner rows).pending ≡ overlay (get j rows) (get j inner.pending)
unfolding hydrate_rows get Distinct
hydrate_rows_lem [] inner j d = refl
hydrate_rows_lem ((id, row) ∷ rows) inner j d = elim (Bool-cases (non_terminal row.status)) [
  | inl b ↦
      rw (b, hydrate_rows)
        (ground (
          arith,
          b,
          d.0,
          hydrate_rows_lem rows (hydrate_row inner id row) j d.1,
          hydrate_row_pending inner id row,
          get-insert id j (load row) inner.pending,
        ))
  | inr b ↦ rw (b, hydrate_rows) (ground (arith, b, d.0, hydrate_rows_lem rows inner j d.1))
]

-- The memory that a restart rebuilds from the rows of a good tracker tracks the same bundles, each
-- with the same record.
pub hydrate_pending :
    (t : Tracker) (j : ℕ) → Good t → get j (hydrate t.db).pending ≡ get j t.inner.pending
unfolding hydrate get
hydrate_pending t j g =
    ground (arith, g.mirror j, hydrate_rows_lem t.db.rows empty_inner j g.keyed.unique)

-- A new bundle enters the memory before its slot is indexed.
module _ (inner : Inner) (id : ℕ) (p : Pending) where
  enter-InvBut :
      get id inner.pending ≡ none
      → get p.memo_signature inner.by_sig ≡ none
      → Coherent p
      → Inv inner
      → InvBut (id ∷ []) (id ∷ []) (track id p inner)
  unfolding contains
  enter-InvBut absent unseen c v = record {
    distinct = insert-Distinct id p inner.pending v.distinct;
    signatures = λ sig j. ground (
      arith,
      look j,
      get-insert p.memo_signature sig id inner.by_sig,
      string_eq.beq_iff p.memo_signature sig,
      v.signatures sig j,
    );
    coherent = λ j q h. ground (arith, look j, v.coherent j q);
    confirm_sound = λ s j h. ground (arith, look j, v.confirm_sound s j h);
    finalize_sound = λ s j h. ground (arith, look j, v.finalize_sound s j h);
    confirm_complete = λ s j q h t l. ground (arith, look j, v.confirm_complete s j q);
    finalize_complete = λ s j q h t l. ground (arith, look j, v.finalize_complete s j q);
  }
    where
      look :
          (j : ℕ)
          → get j (insert id p inner.pending) ≡ (if id == j then some p else get j inner.pending)
      look j = get-insert id j p inner.pending

settled :
    (id : ℕ) (inner : Inner) (p : Pending)
    → get id inner.pending ≡ some p
    → ¬ (p.state ≡ processed)
    → ¬ (p.state ≡ confirmed)
    → InvBut (id ∷ []) (id ∷ []) inner
    → Inv inner
unfolding contains
settled id inner p e np nc v = record {
  distinct = v.distinct;
  signatures = v.signatures;
  coherent = v.coherent;
  confirm_sound = v.confirm_sound;
  finalize_sound = v.finalize_sound;
  confirm_complete = λ s j q h t k. ground (arith, v.confirm_complete s j q h t k);
  finalize_complete = λ s j q h t k. ground (arith, v.finalize_complete s j q h t k);
}

index_stage-Inv :
    (stage : Stage) (slot : Option ℕ) (id : ℕ) (inner : Inner) (p : Pending)
    → get id inner.pending ≡ some p
    → p.state ≡ stage
    → p.landed_slot ≡ slot
    → InvBut (id ∷ []) (id ∷ []) inner
    → Inv (index_stage stage slot id inner)
unfolding contains
index_stage-Inv processed (some ls) id inner p e st l v = record {
  distinct = v.distinct;
  signatures = v.signatures;
  coherent = v.coherent;
  confirm_sound =
      λ s j h. ground (arith, holds-put ls id s j inner.confirm_index, v.confirm_sound s j);
  finalize_sound = v.finalize_sound;
  confirm_complete = λ s j q h t k.
      ground (arith, holds-put ls id s j inner.confirm_index, v.confirm_complete s j q h t k);
  finalize_complete = λ s j q h t k. ground (arith, v.finalize_complete s j q h t k);
}
index_stage-Inv confirmed (some ls) id inner p e st l v = record {
  distinct = v.distinct;
  signatures = v.signatures;
  coherent = v.coherent;
  confirm_sound = v.confirm_sound;
  finalize_sound =
      λ s j h. ground (arith, holds-put ls id s j inner.finalize_index, v.finalize_sound s j);
  confirm_complete = λ s j q h t k. ground (arith, v.confirm_complete s j q h t k);
  finalize_complete = λ s j q h t k.
      ground (arith, holds-put ls id s j inner.finalize_index, v.finalize_complete s j q h t k);
}
index_stage-Inv processed none id inner p e st l v = absurd (ground (arith, v.coherent id p e))
index_stage-Inv confirmed none id inner p e st l v = absurd (ground (arith, v.coherent id p e))
index_stage-Inv submitted slot id inner p e st l v =
    settled id inner p e (ground arith) (ground arith) v
index_stage-Inv finalized slot id inner p e st l v =
    settled id inner p e (ground arith) (ground arith) v
index_stage-Inv failed slot id inner p e st l v =
    settled id inner p e (ground arith) (ground arith) v

pub hydrate_row-Inv :
    (inner : Inner) (id : ℕ) (row : LogRow)
    → get id inner.pending ≡ none
    → get row.memo_signature inner.by_sig ≡ none
    → Coherent (load row)
    → Inv inner
    → Inv (hydrate_row inner id row)
unfolding hydrate_row load
hydrate_row-Inv inner id row absent unseen c v =
    let p = load row in
    let w : Inv (index_stage p.state p.landed_slot id (track id p inner)) =
      index_stage-Inv p.state p.landed_slot id (track id p inner) p
        (ground (arith, get-insert id id p inner.pending)) refl refl
        (enter-InvBut inner id p absent unseen c v) in
    record {
      distinct = w.distinct;
      signatures = w.signatures;
      coherent = w.coherent;
      confirm_sound = w.confirm_sound;
      finalize_sound = w.finalize_sound;
      confirm_complete = w.confirm_complete;
      finalize_complete = w.finalize_complete;
    }
