-- ===== src/Tips/Tracker.antt =====
-- crates/tips/src/lib.rs: the bounded history of snapshots, its staleness and its trend. The
-- history is in the order of arrival, the oldest first.
use solana_smart_tx.Base.{ℕ, ◌-◌, Bool, true, false, Option, none, some, List, [], ◌∷◌, ◌++◌}
use solana_smart_tx.Base.Tests.{nat_eq, ◌==◌, ltb, leb, if◌then◌else◌}
use solana_smart_tx.Base.Int.{ℤ, pos, negsuc, ◌-ℤ◌, to_i64}
use solana_smart_tx.Base.Lists.{length}
use solana_smart_tx.Tips.Types.{TipSnapshot, TipTrend}

pub data TipSource : Type 0 where
  web_socket rest : TipSource

pub record TipState : Type 0 where
  pub history : List TipSnapshot
  pub last_source : Option TipSource

-- `while history.len() > capacity { history.pop_front(); }`.
unfoldable pub trim_history : ℕ → List TipSnapshot → List TipSnapshot
trim_history capacity [] = []
trim_history capacity (s ∷ l) =
    let rest = trim_history capacity l in if ltb capacity (length (s ∷ l)) then rest else s ∷ l

unfoldable pub store : ℕ → TipState → TipSnapshot → TipSource → TipState
unfolding trim_history
store history_capacity state snapshot source = record {
  history = trim_history history_capacity (state.history ++ snapshot ∷ []);
  last_source = some source;
}

-- `ingest`, given what `parse_payload` makes of the text; a payload that does not parse is skipped.
unfoldable pub ingest : ℕ → TipState → Option TipSnapshot → TipSource → TipState
unfolding store
ingest history_capacity state none source = state
ingest history_capacity state (some snapshot) source = store history_capacity state snapshot source

-- `VecDeque::back`.
unfoldable pub back : List TipSnapshot → Option TipSnapshot
back [] = none
back (s ∷ []) = some s
back (s ∷ r ∷ l) = back (r ∷ l)

unfoldable pub is_stale : ℕ → TipState → ℕ → Bool
unfolding back
is_stale staleness_threshold state now = elim (back state.history) [
  | none ↦ true
  | some s ↦ ltb staleness_threshold (now - s.taken_at)
]

abbrev pub in_window : ℕ → ℕ → TipSnapshot → Bool
in_window now window s = leb (now - s.taken_at) window

unfoldable pub find_in_window : ℕ → ℕ → List TipSnapshot → Option TipSnapshot
find_in_window now window [] = none
find_in_window now window (s ∷ l) =
    let rest = find_in_window now window l in if in_window now window s then some s else rest

abbrev is_positive : ℤ → Bool
is_positive (pos n) = ltb 0 n
is_positive (negsuc n) = false

abbrev pub change : TipSnapshot → TipSnapshot → TipTrend
change latest oldest = record {
  p50_change_lamports = to_i64 latest.p50_lamports -ℤ to_i64 oldest.p50_lamports;
  p75_change_lamports = to_i64 latest.p75_lamports -ℤ to_i64 oldest.p75_lamports;
  rising = is_positive (to_i64 latest.p50_lamports -ℤ to_i64 oldest.p50_lamports);
}

unfoldable pub compute_trend : List TipSnapshot → ℕ → ℕ → Option TipTrend
unfolding back find_in_window
compute_trend history now window = elim (back history) [
  | none ↦ none
  | some latest ↦ elim (find_in_window now window history) [
    | none ↦ none
    | some oldest ↦ if oldest.taken_at == latest.taken_at then none else some (change latest oldest)
  ]
]
