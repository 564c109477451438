-- ===== src/Lifecycle/Store.antt =====
-- crates/lifecycle/src/lib.rs: the rows of `bundle_submissions`, and the statements that the
-- tracker runs on them. The table is migrations/0001_bundle_submissions.sql and 0002.
use solana_smart_tx.Base.{ℕ, suc, String, Option, none, some, List, [], ◌∷◌}
use solana_smart_tx.Base.Tests.{nat_eq, string_eq, ◌==◌, if◌then◌else◌}
use solana_smart_tx.Base.Int.{ℤ, to_i64}
use solana_smart_tx.Base.Lists.{any}
use solana_smart_tx.Base.Map.{Map, get, insert}
use solana_smart_tx.Base.Text.{Text}
use solana_smart_tx.Failure.Types.{Piece}
use solana_smart_tx.Submitter.Types.{BundleRecord}
use solana_smart_tx.Lifecycle.Types.{
  Write, set_processed, set_confirmed, set_finalized, set_failed, target, to_millis,
}
use solana_smart_tx.Lifecycle.Machine.{map_option}

pub record LogRow : Type 0 where
  pub bundle_id : String
  pub memo_signature : String
  pub tip_signature : String
  pub tip_account : String
  pub blockhash : String
  pub blockhash_fetched_at_slot : ℤ
  pub submitted_slot : ℤ
  pub tip_lamports : ℤ
  pub fault_injected : Option String
  pub tip_p50_at_submit : Option ℤ
  pub tip_p75_at_submit : Option ℤ
  pub status : String
  pub submitted_at : ℤ
  pub processed_at : Option ℤ
  pub confirmed_at : Option ℤ
  pub finalized_at : Option ℤ
  pub landed_slot : Option ℤ
  pub submit_to_process_ms : Option ℤ
  pub process_to_confirm_ms : Option ℤ
  pub confirm_to_finalize_ms : Option ℤ
  pub failure_kind : Option String
  pub failure_confidence : Option String
  pub failure_rationale : Option (List Piece)
  pub processed_source : Option String
  pub confirmed_source : Option String
  pub finalized_source : Option String
  pub jito_inflight_status : Option Text

-- The table by its primary key, and the next AUTOINCREMENT key.
pub record Database : Type 0 where
  pub rows : Map ℕ LogRow
  pub next_id : ℕ

-- SQL's `COALESCE(a, b)`.
abbrev coalesce : Option ℤ → Option ℤ → Option ℤ
coalesce none b = b
coalesce (some a) b = some a

-- What the UPDATE of a write does to its row.
unfoldable pub apply_write : Write → LogRow → LogRow
apply_write (set_processed id at slot delta source) r = record r {
  status = "Processed";
  processed_at = some at;
  landed_slot = some slot;
  submit_to_process_ms = delta;
  processed_source = some source;
}
apply_write (set_confirmed id at delta source) r = record r {
  status = "Confirmed";
  confirmed_at = some at;
  process_to_confirm_ms = delta;
  confirmed_source = some source;
}
apply_write (set_finalized id at delta source) r = record r {
  status = "Finalized";
  finalized_at = some at;
  confirm_to_finalize_ms = delta;
  finalized_source = some source;
}
apply_write (set_failed id kind confidence rationale slot at delta failed_at) r = record r {
  status = "Failed";
  failure_kind = some kind;
  failure_confidence = some confidence;
  failure_rationale = some rationale;
  landed_slot = coalesce slot r.landed_slot;
  processed_at = coalesce at r.processed_at;
  submit_to_process_ms = coalesce delta r.submit_to_process_ms;
  finalized_at = coalesce r.finalized_at (some failed_at);
}

-- `UPDATE bundle_submissions SET … WHERE id = ?`.
unfoldable pub update_row : ℕ → (LogRow → LogRow) → Database → Database
update_row id change db = elim (get id db.rows) [
  | none ↦ db
  | some row ↦ record db { rows = insert id (change row) db.rows }
]

unfoldable pub persist : Database → Write → Database
persist db w = update_row (target w) (apply_write w) db

-- Writes one after another, each awaited.
unfoldable pub persist_all : Database → List Write → Database
persist_all db [] = db
persist_all db (w ∷ ws) = persist_all (persist db w) ws

-- The row that the INSERT of `record_submission` makes.
unfoldable pub new_row : BundleRecord → Option ℕ → Option ℕ → LogRow
new_row r p50 p75 = record {
  bundle_id = r.bundle_id;
  memo_signature = r.memo_signature;
  tip_signature = r.tip_signature;
  tip_account = r.tip_account;
  blockhash = r.blockhash;
  blockhash_fetched_at_slot = to_i64 r.blockhash_fetched_at_slot;
  submitted_slot = to_i64 r.blockhash_fetched_at_slot;
  tip_lamports = to_i64 r.tip_lamports;
  fault_injected = r.fault_injected;
  tip_p50_at_submit = map_option to_i64 p50;
  tip_p75_at_submit = map_option to_i64 p75;
  status = "Submitted";
  submitted_at = to_millis r.submitted_at;
  processed_at = none;
  confirmed_at = none;
  finalized_at = none;
  landed_slot = none;
  submit_to_process_ms = none;
  process_to_confirm_ms = none;
  confirm_to_finalize_ms = none;
  failure_kind = none;
  failure_confidence = none;
  failure_rationale = none;
  processed_source = none;
  confirmed_source = none;
  finalized_source = none;
  jito_inflight_status = none;
}

-- The column `bundle_id` is UNIQUE: a second row with the same one is refused.
unfoldable pub insert_row : LogRow → Database → Option (Database × ℕ)
insert_row row db =
    if any (λ (entry : ℕ × LogRow). entry.1.bundle_id == row.bundle_id) db.rows
    then none
    else some
        (record db { rows = insert db.next_id row db.rows; next_id = suc db.next_id }, db.next_id)
