-- ===== src/Lifecycle/Submissions.antt =====
-- `record_submission`: what it promises, and that it keeps the memory's invariant and the mirror.
use solana_smart_tx.Base.{
  ℕ, suc, ◌<◌, String, ◌≡◌, ◌≢◌, refl, ap, inl, inr, Bool, true, false, Option, none, some, arith,
}
use solana_smart_tx.Base.Tests.{nat_eq, string_eq, ◌==◌, if◌then◌else◌, Bool-cases}
use solana_smart_tx.Base.Int.{to_i64, from_i64, u64_bound, from_i64-to_i64}
use solana_smart_tx.Base.Lists.{any}
use solana_smart_tx.Base.Map.{Map, get, insert, get-insert, insert-Distinct}
use solana_smart_tx.Submitter.Types.{BundleRecord}
use solana_smart_tx.Lifecycle.Types.{Inner}
use solana_smart_tx.Lifecycle.Machine.{map_option}
use solana_smart_tx.Lifecycle.Invariant.{Inv}
use solana_smart_tx.Lifecycle.Store.{LogRow, new_row, insert_row}
use solana_smart_tx.Lifecycle.Hydrate.{load, non_terminal}
use solana_smart_tx.Lifecycle.Tracker.{Tracker, new_pending, track, record_submission}
use solana_smart_tx.Lifecycle.Mirror.{live}
use solana_smart_tx.Lifecycle.Operations.{Good}

-- The numbers of a submission are `u64`s.
abbrev pub FitsOption : Option ℕ → Type 0
FitsOption none = Unit {0}
FitsOption (some n) = n < u64_bound

pub record FitsRecord (r : BundleRecord) (p50 p75 : Option ℕ) : Type 0 where
  pub tip : r.tip_lamports < u64_bound
  pub slot : r.blockhash_fetched_at_slot < u64_bound
  pub median : FitsOption p50
  pub upper : FitsOption p75

cast_option : (o : Option ℕ) → FitsOption o → map_option from_i64 (map_option to_i64 o) ≡ o
cast_option none h = refl
cast_option (some n) h = ap some (from_i64-to_i64 n h)

live-new_row :
    (r : BundleRecord) (p50 p75 : Option ℕ)
    → FitsRecord r p50 p75
    → live (some (new_row r p50 p75)) ≡ some (new_pending r p50 p75)
unfolding new_row load non_terminal
live-new_row r p50 p75 f = ground (
  arith,
  cast_option p50 f.median,
  cast_option p75 f.upper,
  from_i64-to_i64 r.tip_lamports f.tip,
  from_i64-to_i64 r.blockhash_fetched_at_slot f.slot,
)

track-Inv :
    (inner : Inner) (id : ℕ) (r : BundleRecord) (p50 p75 : Option ℕ)
    → get id inner.pending ≡ none
    → get r.memo_signature inner.by_sig ≡ none
    → Inv inner
    → Inv (track id (new_pending r p50 p75) inner)
track-Inv inner id r p50 p75 absent unseen v = record {
  distinct = insert-Distinct id _ inner.pending v.distinct;
  signatures = λ sig j. ground (
    arith,
    look j,
    get-insert r.memo_signature sig id inner.by_sig,
    string_eq.beq_iff r.memo_signature sig,
    v.signatures sig j,
  );
  coherent = λ j q h. ground (arith, look j, v.coherent j q);
  confirm_sound = λ s j h. ground (arith, look j, v.confirm_sound s j h);
  finalize_sound = λ s j h. ground (arith, look j, v.finalize_sound s j h);
  confirm_complete = λ s j q h t l. ground (arith, look j, v.confirm_complete s j q);
  finalize_complete = λ s j q h t l. ground (arith, look j, v.finalize_complete s j q);
}
  where
    look :
        (j : ℕ)
        → get j (insert id (new_pending r p50 p75) inner.pending)
          ≡ (if id == j then some (new_pending r p50 p75) else get j inner.pending)
    look j = get-insert id j (new_pending r p50 p75) inner.pending

-- The tracker after an accepted submission.
abbrev pub recorded : Tracker → BundleRecord → Option ℕ → Option ℕ → Tracker
recorded t r p50 p75 = record t {
  db = record {
    rows = insert t.db.next_id (new_row r p50 p75) t.db.rows;
    next_id = suc t.db.next_id;
  };
  inner = track t.db.next_id (new_pending r p50 p75) t.inner;
}

recorded-Good :
    (t : Tracker) (r : BundleRecord) (p50 p75 : Option ℕ)
    → FitsRecord r p50 p75
    → get r.memo_signature t.inner.by_sig ≡ none
    → Good t
    → Good (recorded t r p50 p75)
recorded-Good t r p50 p75 f unseen g = record {
  inv = track-Inv t.inner id r p50 p75 (ground (arith, g.mirror id, g.keyed.fresh id)) unseen g.inv;
  mirror = λ j. ground (
    arith,
    g.mirror j,
    get-insert id j (new_pending r p50 p75) t.inner.pending,
    get-insert id j (new_row r p50 p75) t.db.rows,
    live-new_row r p50 p75 f,
  );
  keyed = record {
    fresh = λ j le. ground (arith, get-insert id j (new_row r p50 p75) t.db.rows, g.keyed.fresh j);
    unique = insert-Distinct id (new_row r p50 p75) t.db.rows g.keyed.unique;
  };
}
  where
    id : ℕ
    id = t.db.next_id

-- Whether a row has the bundle id.
abbrev pub has_bundle : String → Map ℕ LogRow → Bool
has_bundle bundle_id rows = any (λ (entry : ℕ × LogRow). entry.1.bundle_id == bundle_id) rows

-- The one row that differs is new.
abbrev pub AddsRow : (before after : Map ℕ LogRow) → ℕ → LogRow → Type 0
AddsRow before after id row =
    (get id before ≡ none)
    × (get id after ≡ some row)
    × ((j : ℕ) → j ≢ id → get j after ≡ get j before)

-- What `record_submission` promises of its result.
abbrev pub Recorded : Tracker → BundleRecord → Option ℕ → Option ℕ → Option (Tracker × ℕ) → Type 0
Recorded t r p50 p75 none = has_bundle r.bundle_id t.db.rows ≡ true
Recorded t r p50 p75 (some (t', id)) =
    Good t'
    × (has_bundle r.bundle_id t.db.rows ≡ false)
    × (get id t.inner.pending ≡ none)
    × (get id t'.inner.pending ≡ some (new_pending r p50 p75))
    × (get r.memo_signature t'.inner.by_sig ≡ some id)
    × AddsRow t.db.rows t'.db.rows id (new_row r p50 p75)

-- On a good tracker a submission whose signature is not tracked, and whose numbers are `u64`s, is
-- refused if its bundle id has a row, and else makes a good tracker, in which the bundle is tracked
-- under a key that was unused, and has the one row that is new; every other row stays as it was.
pub record_submission-Recorded :
    (t : Tracker) (r : BundleRecord) (p50 p75 : Option ℕ)
    → FitsRecord r p50 p75
    → get r.memo_signature t.inner.by_sig ≡ none
    → Good t
    → Recorded t r p50 p75 (record_submission t r p50 p75)
unfolding record_submission insert_row new_row
record_submission-Recorded t r p50 p75 f unseen g =
    elim (Bool-cases (has_bundle r.bundle_id t.db.rows)) [
      | inl dup ↦ rw (dup, record_submission) dup
      | inr new_id ↦
          rw (new_id, record_submission)
            (
              recorded-Good t r p50 p75 f unseen g,
              new_id,
              ground (arith, g.mirror t.db.next_id, g.keyed.fresh t.db.next_id),
              ground (
                arith,
                get-insert t.db.next_id t.db.next_id (new_pending r p50 p75) t.inner.pending,
              ),
              ground (
                arith,
                get-insert r.memo_signature r.memo_signature t.db.next_id t.inner.by_sig,
                string_eq.beq_iff r.memo_signature r.memo_signature,
              ),
              (
                g.keyed.fresh t.db.next_id (omega arith),
                ground (arith, get-insert t.db.next_id t.db.next_id (new_row r p50 p75) t.db.rows),
                (λ j other.
                    ground (arith, get-insert t.db.next_id j (new_row r p50 p75) t.db.rows)),
              ),
            )
    ]
