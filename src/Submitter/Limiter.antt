-- ===== src/Submitter/Limiter.antt =====
-- crates/submitter/src/lib.rs: `JitoRateLimiter`, each caller as the sequence of its atomic steps.
-- Durations and instants are nanoseconds.
use solana_smart_tx.Base.{ℕ, ◌+◌, ◌-◌, ◌/◌, ◌^◌, ◌≡◌, List, [], ◌∷◌, ◌++◌}
use solana_smart_tx.Base.Tests.{ltb, leb, if◌then◌else◌}

pub data Priority : Type 0 where
  high low : Priority

pub record JitoRateLimiter : Type 0 where
  pub interval : ℕ
  pub next_at : ℕ
  pub high_pending : ℕ

abbrev pub max : ℕ → ℕ → ℕ
max a b = if ltb a b then b else a

unfoldable pub limiter : (rps now : ℕ) → JitoRateLimiter
limiter rps now = record { interval = 10 ^ 9 / max rps 1; next_at = now; high_pending = 0 }

-- Where a caller of `acquire` stands: `registered` and `cleared` are past the first block, the latter
-- a low caller that has read `high_pending` as 0; `reserved` has left the lock with its start,
-- `waiting` sleeps until it, and `admitted` has returned.
pub data Caller : Type 0 where
  calling : Priority → Caller
  registered cleared : Caller
  reserved : Priority → (start : ℕ) → Caller
  waiting admitted : (start : ℕ) → Caller

-- The limiter and the caller after a step, and the start that the step has reserved.
pub record Stepped : Type 0 where
  pub limiter : JitoRateLimiter
  pub caller : Caller
  pub reserved : List ℕ

abbrev pub stay : JitoRateLimiter → Caller → Stepped
stay l c = record { limiter = l; caller = c; reserved = [] }

-- The block under the lock of `next_at`.
unfoldable pub reserve : (now : ℕ) → JitoRateLimiter → Priority → Stepped
reserve now l priority =
    let start = max l.next_at now in
    record {
      limiter = record l { next_at = start + l.interval };
      caller = reserved priority start;
      reserved = start ∷ [];
    }

-- The next atomic step of a caller. A low caller that finds a high one pending looks again later.
unfoldable pub acquire_step : (now : ℕ) → JitoRateLimiter → Caller → Stepped
unfolding reserve
acquire_step now l (calling high) = stay (record l { high_pending = l.high_pending + 1 }) registered
acquire_step now l (calling low) = stay l (if ltb 0 l.high_pending then calling low else cleared)
acquire_step now l registered = reserve now l high
acquire_step now l cleared = reserve now l low
acquire_step now l (reserved high start) =
    stay (record l { high_pending = l.high_pending - 1 }) (waiting start)
acquire_step now l (reserved low start) = stay l (waiting start)
acquire_step now l (waiting start) =
    stay l (if leb start now then admitted start else waiting start)
acquire_step now l (admitted start) = stay l (admitted start)

-- The limiter with its callers, who take their steps in any order, and all starts reserved so far,
-- the latest first.
pub record System : Type 0 where
  pub limiter : JitoRateLimiter
  pub clock : ℕ
  pub callers : List Caller
  pub starts : List ℕ

abbrev pub acted : System → List Caller → Caller → List Caller → System
acted s before c after =
    let r = acquire_step s.clock s.limiter c in
    record s {
      limiter = r.limiter;
      callers = before ++ r.caller ∷ after;
      starts = r.reserved ++ s.starts;
    }

-- Time passes, a task calls `acquire`, or a caller takes its next step.
pub data Step (s : System) (t : System) : Type 0 where
  tick : (d : ℕ) → t ≡ record s { clock = s.clock + d } → Step s t
  call : (p : Priority) → t ≡ record s { callers = calling p ∷ s.callers } → Step s t
  act :
      (before : List Caller) (c : Caller) (after : List Caller)
      → s.callers ≡ before ++ c ∷ after
      → t ≡ acted s before c after
      → Step s t

abbrev pub start_of : (rps now : ℕ) → System
start_of rps now = record { limiter = limiter rps now; clock = now; callers = []; starts = [] }

pub data Reach (rps now : ℕ) : System → Type 0 where
  fresh : Reach rps now (start_of rps now)
  later : {s t : System} → Reach rps now s → Step s t → Reach rps now t
