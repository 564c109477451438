-- ===== src/Lifecycle/Types.antt =====
-- crates/lifecycle/src/lib.rs: `Stage`, `Pending`, `Inner`, `Write` and the clock helper.
use solana_smart_tx.Base.{ℕ, ◌%◌, String, Option, none, some, List}
use solana_smart_tx.Base.Tests.{string_eq, ◌==◌, if◌then◌else◌}
use solana_smart_tx.Base.Int.{ℤ, pos, negsuc, to_i64, u64_bound}
use solana_smart_tx.Base.Map.{Map}
use solana_smart_tx.Base.Text.{Text}
use solana_smart_tx.Failure.Types.{Piece}

pub data Stage : Type 0 where
  submitted processed confirmed finalized failed : Stage

abbrev pub rank : Stage → ℕ
rank submitted = 0
rank processed = 1
rank confirmed = 2
rank finalized = 3
rank failed = 4

unfoldable pub as_str : Stage → String
as_str submitted = "Submitted"
as_str processed = "Processed"
as_str confirmed = "Confirmed"
as_str finalized = "Finalized"
as_str failed = "Failed"

-- `Stage::parse`.
unfoldable pub parse : String → Option Stage
parse s =
    if s == "Submitted"
    then some submitted
    else if s == "Processed"
    then some processed
    else if s == "Confirmed"
    then some confirmed
    else if s == "Finalized"
    then some finalized
    else if s == "Failed"
    then some failed
    else none

pub record Pending : Type 0 where
  pub memo_signature : String
  pub state : Stage
  pub landed_slot : Option ℕ
  pub submitted_slot : ℕ
  pub blockhash_fetched_at_slot : ℕ
  pub submitted_at_ms : ℤ
  pub processed_at_ms : Option ℤ
  pub confirmed_at_ms : Option ℤ
  pub tip_lamports : ℕ
  pub tip_p50 : Option ℕ
  pub tip_p75 : Option ℕ
  pub jito_inflight : Option Text

-- `BTreeMap<u64, HashSet<i64>>`: row ids by landed slot, in the order of the slots.
abbrev pub Index : Type 0
Index = Map ℕ (List ℕ)

pub record Inner : Type 0 where
  pub by_sig : Map String ℕ
  pub pending : Map ℕ Pending
  pub confirm_index : Index
  pub finalize_index : Index
  pub last_observed_slot : ℕ

-- One persisted transition.
pub data Write : Type 0 where
  set_processed :
      (id : ℕ) (processed_at landed_slot : ℤ) (submit_to_process_ms : Option ℤ) (source : String)
      → Write
  set_confirmed :
      (id : ℕ) (confirmed_at : ℤ) (process_to_confirm_ms : Option ℤ) (source : String) → Write
  set_finalized :
      (id : ℕ) (finalized_at : ℤ) (confirm_to_finalize_ms : Option ℤ) (source : String) → Write
  set_failed :
      (id : ℕ) (kind confidence : String) (rationale : List Piece)
      (landed_slot processed_at submit_to_process_ms : Option ℤ) (failed_at : ℤ)
      → Write

-- The row that a write is about.
abbrev pub target : Write → ℕ
target (set_processed id at slot delta source) = id
target (set_confirmed id at delta source) = id
target (set_finalized id at delta source) = id
target (set_failed id kind confidence rationale slot at delta failed_at) = id

-- `to_millis`: milliseconds from the epoch as `i64`, 0 before the epoch.
unfoldable pub to_millis : ℤ → ℤ
unfolding to_i64
to_millis (pos n) = to_i64 (n % u64_bound)
to_millis (negsuc n) = pos 0
