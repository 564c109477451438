-- ===== src/Lifecycle/Rehydration.antt =====
-- The memory that a restart rebuilds keeps the invariant, and the mirror.
use solana_smart_tx.Base.{
  ℕ, ◌≡◌, refl, ◌∙◌, inl, inr, true, false, Option, none, some, [], ◌∷◌, arith,
}
use solana_smart_tx.Base.Tests.{nat_eq, string_eq, ◌==◌, Bool-cases}
use solana_smart_tx.Base.Map.{Map, get, insert, Distinct, get-insert}
use solana_smart_tx.Lifecycle.Types.{Stage, processed, confirmed, Inner}
use solana_smart_tx.Lifecycle.Index.{holds}
use solana_smart_tx.Lifecycle.Invariant.{Coherent, Inv}
use solana_smart_tx.Lifecycle.Store.{LogRow}
use solana_smart_tx.Lifecycle.Hydrate.{
  non_terminal, load, index_stage, hydrate_row, hydrate_rows, empty_inner, hydrate,
}
use solana_smart_tx.Lifecycle.Tracker.{Tracker, new}
use solana_smart_tx.Lifecycle.Operations.{Good}
use solana_smart_tx.Lifecycle.Recovery.{hydrate_row_pending, hydrate_pending, hydrate_row-Inv}

-- What the rows need for their memory to be sound: sound stamps, and one signature for one bundle.
record Loadable (rows : Map ℕ LogRow) (inner : Inner) : Type 0 where
  stamped :
      (j : ℕ) (row : LogRow)
      → get j rows ≡ some row
      → non_terminal row.status ≡ true
      → Coherent (load row)
  apart :
      (i j : ℕ) (r s : LogRow)
      → get i rows ≡ some r
      → get j rows ≡ some s
      → non_terminal r.status ≡ true
      → non_terminal s.status ≡ true
      → r.memo_signature ≡ s.memo_signature
      → i ≡ j
  new_id :
      (j : ℕ) (row : LogRow)
      → get j rows ≡ some row
      → non_terminal row.status ≡ true
      → get j inner.pending ≡ none
  new_sig :
      (j : ℕ) (row : LogRow)
      → get j rows ≡ some row
      → non_terminal row.status ≡ true
      → get row.memo_signature inner.by_sig ≡ none

index_stage_by_sig :
    (stage : Stage) (slot : Option ℕ) (id : ℕ) (inner : Inner)
    → (index_stage stage slot id inner).by_sig ≡ inner.by_sig
index_stage_by_sig processed (some s) id inner = refl
index_stage_by_sig confirmed (some s) id inner = refl
index_stage_by_sig processed none id inner = refl
index_stage_by_sig confirmed none id inner = refl
index_stage_by_sig _ _ id inner = refl

hydrate_row_by_sig :
    (inner : Inner) (id : ℕ) (row : LogRow)
    → (hydrate_row inner id row).by_sig ≡ insert row.memo_signature id inner.by_sig
unfolding hydrate_row
hydrate_row_by_sig inner id row = index_stage_by_sig (load row).state (load row).landed_slot id _

module _ (id : ℕ) (row : LogRow) (rows : Map ℕ LogRow) (inner : Inner)
    (absent : get id rows ≡ none) where
  -- A row of the rest is a row of the whole, and under another key.
  other_key : (j : ℕ) (r : LogRow) → get j rows ≡ some r → (id == j) ≡ false
  other_key j r e = elim (Bool-cases (id == j)) [ inl same ↦ ground arith | inr other ↦ other ]

  in_whole : (j : ℕ) (r : LogRow) → get j rows ≡ some r → get j ((id, row) ∷ rows) ≡ some r
  unfolding get
  in_whole j r e = ground (arith, other_key j r e)

  skip-Loadable : Loadable ((id, row) ∷ rows) inner → Loadable rows inner
  skip-Loadable l = record {
    stamped = λ j r e. l.stamped j r (in_whole j r e);
    apart = λ i j r s e f. l.apart i j r s (in_whole i r e) (in_whole j s f);
    new_id = λ j r e. l.new_id j r (in_whole j r e);
    new_sig = λ j r e. l.new_sig j r (in_whole j r e);
  }

  load-Loadable :
      non_terminal row.status ≡ true
      → Loadable ((id, row) ∷ rows) inner
      → Loadable rows (hydrate_row inner id row)
  load-Loadable nt l = record {
    stamped = λ j r e. l.stamped j r (in_whole j r e);
    apart = λ i j r s e f. l.apart i j r s (in_whole i r e) (in_whole j s f);
    new_id = λ j r e t. ground (
      arith,
      hydrate_row_pending inner id row,
      get-insert id j (load row) inner.pending,
      other_key j r e,
      l.new_id j r (in_whole j r e) t,
    );
    new_sig = λ j r e t. ground (
      arith,
      hydrate_row_by_sig inner id row,
      get-insert row.memo_signature r.memo_signature id inner.by_sig,
      string_eq.beq_iff row.memo_signature r.memo_signature,
      other_key j r e,
      l.apart id j row r whole (in_whole j r e) nt t,
      l.new_sig j r (in_whole j r e) t,
    );
  }
    where
      whole : get id ((id, row) ∷ rows) ≡ some row
      whole = unfold get in ground arith

hydrate_rows-Inv :
    (rows : Map ℕ LogRow) (inner : Inner)
    → Distinct rows
    → Loadable rows inner
    → Inv inner
    → Inv (hydrate_rows inner rows)
unfolding hydrate_rows Distinct get
hydrate_rows-Inv [] inner d l v = v
hydrate_rows-Inv ((id, row) ∷ rows) inner d l v = elim (Bool-cases (non_terminal row.status)) [
  | inl b ↦
      rw (b, hydrate_rows)
        (hydrate_rows-Inv rows (hydrate_row inner id row) d.1
          (load-Loadable id row rows inner d.0 b l)
          (hydrate_row-Inv inner id row (l.new_id id row here b) (l.new_sig id row here b)
            (l.stamped id row here b) v))
  | inr b ↦
      rw (b, hydrate_rows)
        (hydrate_rows-Inv rows inner d.1 (skip-Loadable id row rows inner d.0 l) v)
]
  where
    here : get id ((id, row) ∷ rows) ≡ some row
    here = ground arith

pub empty-Inv : Inv empty_inner
unfolding Distinct get holds
empty-Inv = record {
  distinct = tt;
  signatures = λ sig j. ground arith;
  coherent = λ j q h. ground arith;
  confirm_sound = λ s j h. ground arith;
  finalize_sound = λ s j h. ground arith;
  confirm_complete = λ s j q h t l. ground arith;
  finalize_complete = λ s j q h t l. ground arith;
}

rows-Loadable : (t : Tracker) → Good t → Loadable t.db.rows empty_inner
unfolding get load
rows-Loadable t g = record {
  stamped = λ j r e b. g.inv.coherent j (load r) (ground (arith, g.mirror j));
  apart = λ i j r s e f b c same. ground (
    arith,
    g.mirror i,
    g.mirror j,
    g.inv.signatures r.memo_signature i,
    g.inv.signatures r.memo_signature j,
  );
  new_id = λ j r e b. refl;
  new_sig = λ j r e b. refl;
}

-- A restart of a good tracker on its own database is a good tracker again.
pub new-Good : (t : Tracker) (timeout_slots : ℕ) → Good t → Good (new t.db timeout_slots)
unfolding new hydrate
new-Good t timeout_slots g = record {
  inv = hydrate_rows-Inv t.db.rows empty_inner g.keyed.unique (rows-Loadable t g) empty-Inv;
  mirror = λ j. hydrate_pending t j g ∙ g.mirror j;
  keyed = g.keyed;
}
