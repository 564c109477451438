-- ===== src/Submitter/Pace.antt =====
-- Measures of the callers of the rate limiter and of its starts, and what one step does to them.
use solana_smart_tx.Base.{ℕ, suc, ◌+◌, ◌≤◌, ◌≡◌, refl, List, [], ◌∷◌, ◌++◌, arith, true, ◌/◌, ◌^◌}
use solana_smart_tx.Base.Tests.{leb, if◌then◌else◌}
use solana_smart_tx.Submitter.Limiter.{
  high, low, JitoRateLimiter, limiter, Caller, calling, registered, cleared, reserved, waiting,
  admitted, acquire_step, max, System,
}

module _ (w : Caller → ℕ) where
  abbrev pub total : List Caller → ℕ
  total [] = 0
  total (c ∷ l) = w c + total l

  pub total_middle :
      (before : List Caller) (c : Caller) (after : List Caller)
      → total (before ++ c ∷ after) ≡ total before + w c + total after
  total_middle [] c after = omega arith
  total_middle (b ∷ before) c after = omega (arith, total_middle before c after)

-- How many of the starts are at `t` or before it.
abbrev pub due : ℕ → List ℕ → ℕ
due t [] = 0
due t (x ∷ xs) = if leb x t then suc (due t xs) else due t xs

-- Starts from `t0` on, the latest first, each at least an interval before the next.
abbrev pub Spaced : (interval t0 : ℕ) → List ℕ → Type 0
Spaced interval t0 [] = Unit
Spaced interval t0 (x ∷ []) = t0 ≤ x
Spaced interval t0 (x ∷ y ∷ l) = (y + interval ≤ x) × Spaced interval t0 (y ∷ l)

abbrev pub is_pending : Caller → ℕ
is_pending registered = 1
is_pending (reserved high start) = 1
is_pending _ = 0

-- A caller that holds a start at `t` or before it.
abbrev pub holds : ℕ → Caller → ℕ
holds t (reserved p s) = if leb s t then 1 else 0
holds t (waiting s) = if leb s t then 1 else 0
holds t (admitted s) = if leb s t then 1 else 0
holds t _ = 0

abbrev pub is_admitted : Caller → ℕ
is_admitted (admitted s) = 1
is_admitted _ = 0

-- A caller that was let through before its start.
abbrev pub is_early : ℕ → Caller → ℕ
is_early now (admitted s) = if leb s now then 0 else 1
is_early now _ = 0

abbrev pub Next : (interval t0 next_at : ℕ) → List ℕ → Type 0
Next interval t0 next_at [] = t0 ≤ next_at
Next interval t0 next_at (x ∷ l) = next_at ≡ x + interval

pub record Inv (interval t0 : ℕ) (s : System) : Type 0 where
  pub fixed : s.limiter.interval ≡ interval
  pub pending : s.limiter.high_pending ≡ total is_pending s.callers
  pub spaced : Spaced interval t0 s.starts
  pub next : Next interval t0 s.limiter.next_at s.starts
  pub held : (t : ℕ) → due t s.starts ≡ total (holds t) s.callers
  pub in_time : total (is_early s.clock) s.callers ≡ 0
  pub clock : t0 ≤ s.clock

pub interval-limiter : (rps now : ℕ) → (limiter rps now).interval ≡ 10 ^ 9 / max rps 1
unfolding limiter
interval-limiter rps now = refl

pub leb→le : (a b : ℕ) → leb a b ≡ true → a ≤ b
leb→le a b h = ground arith

-- What one step of a caller does to each part of the invariant.
pub step_fixed :
    (now : ℕ) (l : JitoRateLimiter) (c : Caller)
    → (acquire_step now l c).limiter.interval ≡ l.interval
unfolding acquire_step
step_fixed now l (calling high) = refl
step_fixed now l (calling low) = refl
step_fixed now l registered = refl
step_fixed now l cleared = refl
step_fixed now l (reserved high s) = refl
step_fixed now l (reserved low s) = refl
step_fixed now l (waiting s) = refl
step_fixed now l (admitted s) = refl

pub step_pending :
    (now : ℕ) (l : JitoRateLimiter) (c : Caller) (others : ℕ)
    → l.high_pending ≡ others + is_pending c
    → (acquire_step now l c).limiter.high_pending
      ≡ others + is_pending (acquire_step now l c).caller
unfolding acquire_step
step_pending now l (calling high) others h = ground arith
step_pending now l (calling low) others h = ground arith
step_pending now l registered others h = ground arith
step_pending now l cleared others h = ground arith
step_pending now l (reserved high s) others h = ground arith
step_pending now l (reserved low s) others h = ground arith
step_pending now l (waiting s) others h = ground arith
step_pending now l (admitted s) others h = ground arith

pub step-Spaced :
    (interval t0 now : ℕ) (l : JitoRateLimiter) (c : Caller) (starts : List ℕ)
    → l.interval ≡ interval
    → Spaced interval t0 starts
    → Next interval t0 l.next_at starts
    → Spaced interval t0 ((acquire_step now l c).reserved ++ starts)
      × Next interval t0
          (acquire_step now l c).limiter.next_at
          ((acquire_step now l c).reserved ++ starts)
unfolding acquire_step
step-Spaced interval t0 now l (calling high) starts e sp nx = (sp, nx)
step-Spaced interval t0 now l (calling low) starts e sp nx = (sp, nx)
step-Spaced interval t0 now l registered [] e sp nx = ground arith
step-Spaced interval t0 now l registered (x ∷ xs) e sp nx = ground arith
step-Spaced interval t0 now l cleared [] e sp nx = ground arith
step-Spaced interval t0 now l cleared (x ∷ xs) e sp nx = ground arith
step-Spaced interval t0 now l (reserved high s) starts e sp nx = (sp, nx)
step-Spaced interval t0 now l (reserved low s) starts e sp nx = (sp, nx)
step-Spaced interval t0 now l (waiting s) starts e sp nx = (sp, nx)
step-Spaced interval t0 now l (admitted s) starts e sp nx = (sp, nx)

pub step_held :
    (now t : ℕ) (l : JitoRateLimiter) (c : Caller) (starts : List ℕ)
    → due t ((acquire_step now l c).reserved ++ starts) + holds t c
      ≡ due t starts + holds t (acquire_step now l c).caller
unfolding acquire_step
step_held now t l (calling high) starts = refl
step_held now t l (calling low) starts = ground arith
step_held now t l registered starts = ground arith
step_held now t l cleared starts = ground arith
step_held now t l (reserved high s) starts = refl
step_held now t l (reserved low s) starts = refl
step_held now t l (waiting s) starts = ground arith
step_held now t l (admitted s) starts = refl

pub step_in_time :
    (now : ℕ) (l : JitoRateLimiter) (c : Caller)
    → is_early now (acquire_step now l c).caller ≤ is_early now c
unfolding acquire_step
step_in_time now l (calling high) = omega arith
step_in_time now l (calling low) = ground arith
step_in_time now l registered = omega arith
step_in_time now l cleared = omega arith
step_in_time now l (reserved high s) = omega arith
step_in_time now l (reserved low s) = omega arith
step_in_time now l (waiting s) = ground arith
step_in_time now l (admitted s) = ground arith
