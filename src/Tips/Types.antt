-- ===== src/Tips/Types.antt =====
-- crates/tips/src/lib.rs: the snapshot of the percentiles and their trend. Times are milliseconds of
-- a monotonic clock.
use solana_smart_tx.Base.{ℕ, Bool}
use solana_smart_tx.Base.Int.{ℤ}

pub record TipSnapshot : Type 0 where
  pub taken_at : ℕ
  pub p25_lamports : ℕ
  pub p50_lamports : ℕ
  pub p75_lamports : ℕ
  pub p95_lamports : ℕ
  pub p99_lamports : ℕ
  pub ema_p50_lamports : ℕ

pub record TipTrend : Type 0 where
  pub p50_change_lamports : ℤ
  pub p75_change_lamports : ℤ
  pub rising : Bool
