-- ===== src/Orchestrator/Policy.antt =====
-- crates/orchestrator/src/app.rs: `PayloadKind`, `TipPercentile` and `normal_tip_policy`.
use Prim.Native.Nat.{min, max}
use solana_smart_tx.Base.{ℕ, String, Bool, true, false, Option, none, some, map}
use solana_smart_tx.Base.Tests.{◌==◌, if◌then◌else◌}
use solana_smart_tx.Base.Text.{Text, codes, text_eq, trim, to_ascii_lowercase}
use solana_smart_tx.Tips.Types.{TipSnapshot}

pub data PayloadKind : Type 0 where
  memo swap : PayloadKind

unfoldable payload_label : PayloadKind → String
payload_label memo = "memo"
payload_label swap = "swap"

abbrev payload_of : Text → Option PayloadKind
payload_of s =
    if s == codes "memo" then some memo else if s == codes "swap" then some swap else none

-- `PayloadKind::parse`.
unfoldable parse_payload : Text → Option PayloadKind
parse_payload s = payload_of (map to_ascii_lowercase (trim s))

pub data TipPercentile : Type 0 where
  p50 p75 p95 : TipPercentile

unfoldable percentile_label : TipPercentile → String
percentile_label p50 = "p50"
percentile_label p75 = "p75"
percentile_label p95 = "p95"

abbrev percentile_of : Text → Option TipPercentile
percentile_of s =
    if s == codes "p50"
    then some p50
    else if s == codes "p75"
    then some p75
    else if s == codes "p95"
    then some p95
    else none

-- `TipPercentile::parse`.
unfoldable parse_percentile : Text → Option TipPercentile
parse_percentile s = percentile_of (map to_ascii_lowercase (trim s))

unfoldable pub select : TipPercentile → TipSnapshot → ℕ
select p50 s = s.p50_lamports
select p75 s = s.p75_lamports
select p95 s = s.p95_lamports

abbrev stale_tip_fallback : ℕ
stale_tip_fallback = 10000

pub record TipPolicy : Type 0 where
  pub tip : ℕ
  pub p50 : Option ℕ
  pub p75 : Option ℕ
  pub source : String

unfoldable pub normal_tip_policy : Option TipSnapshot → Bool → TipPercentile → ℕ → TipPolicy
unfolding select
normal_tip_policy none is_stale percentile max_tip = record {
  tip = min stale_tip_fallback max_tip;
  p50 = none;
  p75 = none;
  source = "no-data";
}
normal_tip_policy (some s) false percentile max_tip = record {
  tip = min (max (select percentile s) 1000) max_tip;
  p50 = some s.p50_lamports;
  p75 = some s.p75_lamports;
  source = "live";
}
normal_tip_policy (some s) true percentile max_tip = record {
  tip = min stale_tip_fallback max_tip;
  p50 = some s.p50_lamports;
  p75 = some s.p75_lamports;
  source = "stale";
}
