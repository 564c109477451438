-- ===== src/Lifecycle/Mirror.antt =====
-- The write-through: the rows that are not terminal are the tracked bundles, field by field.
use solana_smart_tx.Base.{ℕ, ◌<◌, String, ◌≡◌, refl, inl, inr, Option, none, some, arith}
use solana_smart_tx.Base.Tests.{nat_eq, string_eq, ◌==◌, if◌then◌else◌, Option-cases}
use solana_smart_tx.Base.Int.{ℤ, ◌-ℤ◌, to_i64, u64_bound, from_i64-to_i64}
use solana_smart_tx.Base.Map.{get, get-insert, get-remove}
use solana_smart_tx.Failure.Types.{Classification}
use solana_smart_tx.Lifecycle.Types.{
  Pending, Inner, Write, set_processed, set_confirmed, set_finalized, target,
}
use solana_smart_tx.Lifecycle.Machine.{
  map_option, forgotten, forget, failed_write, to_processed, to_confirmed, mark_processed,
  mark_confirmed, mark_finalized,
}
use solana_smart_tx.Lifecycle.Cases.{
  mark_processed_cases, mark_confirmed_cases, mark_finalized_cases, forget_cases,
}
use solana_smart_tx.Lifecycle.Store.{LogRow, Database, apply_write, update_row, persist}
use solana_smart_tx.Lifecycle.Hydrate.{non_terminal, load}

-- The bundle that a row stands for.
abbrev pub live : Option LogRow → Option Pending
live none = none
live (some row) = if non_terminal row.status then some (load row) else none

abbrev pub Mirrors : Database → Inner → Type 0
Mirrors db inner = (j : ℕ) → get j inner.pending ≡ live (get j db.rows)

pub get-update_row :
    (id j : ℕ) (change : LogRow → LogRow) (db : Database)
    → get j (update_row id change db).rows
      ≡ (if id == j then map_option change (get j db.rows) else get j db.rows)
unfolding update_row
get-update_row id j change db = elim (Option-cases (get id db.rows)) [
  | inl e ↦ rw (e, update_row) (ground arith)
  | inr (row, e) ↦ rw (e, update_row) (ground (arith, get-insert id j (change row) db.rows))
]

pub get-persist :
    (w : Write) (j : ℕ) (db : Database)
    → get j (persist db w).rows
      ≡ (if target w == j then map_option (apply_write w) (get j db.rows) else get j db.rows)
unfolding persist
get-persist w j db = get-update_row (target w) j (apply_write w) db

live-processed :
    (o : Option LogRow) (p : Pending) (id slot : ℕ) (at : ℤ) (delta : Option ℤ) (source : String)
    → slot < u64_bound
    → live o ≡ some p
    → live (map_option (apply_write (set_processed id at (to_i64 slot) delta source)) o)
      ≡ some (to_processed p slot at)
unfolding apply_write load non_terminal
live-processed none p id slot at delta source h e = cc
live-processed (some row) p id slot at delta source h e = ground (arith, from_i64-to_i64 slot h)

live-confirmed :
    (o : Option LogRow) (p : Pending) (id : ℕ) (at : ℤ) (delta : Option ℤ) (source : String)
    → live o ≡ some p
    → live (map_option (apply_write (set_confirmed id at delta source)) o)
      ≡ some (to_confirmed p at)
unfolding apply_write load non_terminal
live-confirmed none p id at delta source e = cc
live-confirmed (some row) p id at delta source e = ground arith

live-finalized :
    (o : Option LogRow) (id : ℕ) (at : ℤ) (delta : Option ℤ) (source : String)
    → live (map_option (apply_write (set_finalized id at delta source)) o) ≡ none
unfolding apply_write load non_terminal
live-finalized none id at delta source = refl
live-finalized (some row) id at delta source = refl

live-failed :
    (o : Option LogRow) (id : ℕ) (c : Classification) (slot at delta : Option ℤ) (failed_at : ℤ)
    → live (map_option (apply_write (failed_write id c slot at delta failed_at)) o) ≡ none
unfolding apply_write load non_terminal failed_write
live-failed none id c slot at delta failed_at = refl
live-failed (some row) id c slot at delta failed_at = refl

abbrev pub persist_opt : Database → Option Write → Database
persist_opt db none = db
persist_opt db (some w) = persist db w

-- A step keeps the mirror if its write is persisted.
abbrev pub Follows : Database → Inner × Option Write → Type 0
Follows db r = Mirrors (persist_opt db r.1) r.0

module _ (db : Database) (inner : Inner) (id : ℕ) (m : Mirrors db inner) where
  pub mark_processed-Follows :
      (slot : ℕ) (at : ℤ) (source : String)
      → slot < u64_bound
      → Follows db (mark_processed slot at source inner id)
  mark_processed-Follows slot at source fits =
      mark_processed_cases inner id (Follows db) slot at source (λ _. m)
        λ p e st j. ground (
          arith,
          m j,
          m id,
          get-persist (set_processed id at (to_i64 slot) (some (at -ℤ p.submitted_at_ms)) source) j
              db,
          get-insert id j (to_processed p slot at) inner.pending,
          live-processed (get id db.rows) p id slot at (some (at -ℤ p.submitted_at_ms)) source fits,
        )

  pub mark_confirmed-Follows :
      (at : ℤ) (source : String) → Follows db (mark_confirmed at source inner id)
  mark_confirmed-Follows at source =
      mark_confirmed_cases inner id (Follows db) at source (λ _. m)
        λ p e st j.
          let delta : Option ℤ = map_option (λ x. at -ℤ x) p.processed_at_ms in
          ground (
            arith,
            m j,
            m id,
            get-persist (set_confirmed id at delta source) j db,
            get-insert id j (to_confirmed p at) inner.pending,
            live-confirmed (get id db.rows) p id at delta source,
          )

  pub mark_finalized-Follows :
      (at : ℤ) (source : String) → Follows db (mark_finalized at source inner id)
  mark_finalized-Follows at source =
      mark_finalized_cases inner id (Follows db) at source (λ _. m)
        λ p e st j.
          let delta : Option ℤ = map_option (λ c. at -ℤ c) p.confirmed_at_ms in
          ground (
            arith,
            m j,
            get-persist (set_finalized id at delta source) j db,
            get-remove id j inner.pending,
            live-finalized (get j db.rows) id at delta source,
          )

  pub forgotten-Mirrors :
      (p : Pending) (c : Classification) (slot at delta : Option ℤ) (failed_at : ℤ)
      → Mirrors (persist db (failed_write id c slot at delta failed_at)) (forgotten inner id p)
  unfolding failed_write
  forgotten-Mirrors p c slot at delta failed_at j = ground (
    arith,
    m j,
    get-persist (failed_write id c slot at delta failed_at) j db,
    get-remove id j inner.pending,
    live-failed (get j db.rows) id c slot at delta failed_at,
  )

  -- A failed row and a forgotten bundle go together, tracked or not.
  pub fail-Mirrors :
      (c : Classification) (slot at delta : Option ℤ) (failed_at : ℤ)
      → Mirrors (persist db (failed_write id c slot at delta failed_at)) (forget inner id)
  unfolding failed_write
  fail-Mirrors c slot at delta failed_at =
      forget_cases inner id (Mirrors (persist db (failed_write id c slot at delta failed_at)))
        (λ e j. ground (
          arith,
          m j,
          m id,
          get-persist (failed_write id c slot at delta failed_at) j db,
          live-failed (get j db.rows) id c slot at delta failed_at,
        ))
        λ p e. forgotten-Mirrors p c slot at delta failed_at
