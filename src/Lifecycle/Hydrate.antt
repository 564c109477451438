-- ===== src/Lifecycle/Hydrate.antt =====
-- crates/lifecycle/src/lib.rs: `hydrate`, which rebuilds the memory from the rows.
use Prim.Native.Nat.{max}
use solana_smart_tx.Base.{ℕ, String, Bool, ◌||◌, Option, none, some, [], ◌∷◌}
use solana_smart_tx.Base.Tests.{nat_eq, string_eq, ◌==◌, if◌then◌else◌}
use solana_smart_tx.Base.Int.{from_i64}
use solana_smart_tx.Base.Map.{Map, insert}
use solana_smart_tx.Lifecycle.Types.{Stage, submitted, processed, confirmed, parse, Pending, Inner}
use solana_smart_tx.Lifecycle.Index.{put}
use solana_smart_tx.Lifecycle.Machine.{map_option}
use solana_smart_tx.Lifecycle.Store.{LogRow, Database}

-- `status IN ('Submitted','Processed','Confirmed')`.
unfoldable pub non_terminal : String → Bool
non_terminal s = s == "Submitted" || s == "Processed" || s == "Confirmed"

-- `Stage::parse(status).unwrap_or(Stage::Submitted)`.
unfoldable pub stage_or_submitted : String → Stage
unfolding parse
stage_or_submitted s = elim (parse s) [ none ↦ submitted | some stage ↦ stage ]

-- The record that `hydrate` rebuilds from a row.
unfoldable pub load : LogRow → Pending
unfolding stage_or_submitted
load row = record {
  memo_signature = row.memo_signature;
  state = stage_or_submitted row.status;
  landed_slot = map_option from_i64 row.landed_slot;
  submitted_slot = from_i64 row.submitted_slot;
  blockhash_fetched_at_slot = from_i64 row.blockhash_fetched_at_slot;
  submitted_at_ms = row.submitted_at;
  processed_at_ms = row.processed_at;
  confirmed_at_ms = row.confirmed_at;
  tip_lamports = from_i64 row.tip_lamports;
  tip_p50 = map_option from_i64 row.tip_p50_at_submit;
  tip_p75 = map_option from_i64 row.tip_p75_at_submit;
  jito_inflight = row.jito_inflight_status;
}

abbrev pub index_stage : Stage → Option ℕ → ℕ → Inner → Inner
index_stage processed (some ls) id inner = record inner {
  confirm_index = put ls id inner.confirm_index;
}
index_stage confirmed (some ls) id inner = record inner {
  finalize_index = put ls id inner.finalize_index;
}
index_stage _ _ id inner = inner

abbrev pub slot_or_zero : Option ℕ → ℕ
slot_or_zero none = 0
slot_or_zero (some s) = s

-- One round of the loop of `hydrate`.
unfoldable pub hydrate_row : Inner → ℕ → LogRow → Inner
hydrate_row inner id row =
    let p = load row in
    let indexed = index_stage p.state p.landed_slot id (record inner {
      by_sig = insert row.memo_signature id inner.by_sig;
      pending = insert id p inner.pending;
    }) in
    record indexed {
      last_observed_slot =
          max (max indexed.last_observed_slot (slot_or_zero p.landed_slot)) p.submitted_slot;
    }

unfoldable pub hydrate_rows : Inner → Map ℕ LogRow → Inner
hydrate_rows inner [] = inner
hydrate_rows inner ((id, row) ∷ rows) =
    hydrate_rows (if non_terminal row.status then hydrate_row inner id row else inner) rows

abbrev pub empty_inner : Inner
empty_inner = record {
  by_sig = [];
  pending = [];
  confirm_index = [];
  finalize_index = [];
  last_observed_slot = 0;
}

unfoldable pub hydrate : Database → Inner
unfolding hydrate_rows
hydrate db = hydrate_rows empty_inner db.rows
