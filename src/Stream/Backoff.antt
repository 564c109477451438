-- ===== src/Stream/Backoff.antt =====
-- crates/stream/src/lib.rs: `Backoff`, which crates/tips/src/lib.rs has a copy of. Durations are
-- nanoseconds, and the growth factor is 2, as both crates have it; `2^attempt` is exact as an `f64`.
use Prim.Native.Nat.{min}
use native.Mathlib.Nat.{pow-le-pow_right, mul-le-mul_left, div-le_self, le_trans}
use solana_smart_tx.Base.{ℕ, suc, ◌+◌, ◌-◌, ◌*◌, ◌/◌, ◌^◌, ◌≤◌, ◌≡◌, ap, inl, inr, arith}
use solana_smart_tx.Base.Tests.{ltb, if◌then◌else◌, Bool-cases}

pub record Backoff : Type 0 where
  pub base : ℕ
  pub cap : ℕ
  pub attempt : ℕ

abbrev pub new : (base cap : ℕ) → Backoff
new base cap = record { base = base; cap = cap; attempt = 0 }

abbrev pub reset : Backoff → Backoff
reset b = record b { attempt = 0 }

-- The cast to `i32` makes the exponent negative from 2^31 on; what is then below a nanosecond is cut off.
unfoldable pub scaled : (base attempt : ℕ) → ℕ
scaled base attempt =
    if ltb attempt (2 ^ 31) then base * 2 ^ attempt else base / 2 ^ (2 ^ 32 - attempt)

unfoldable pub ceiling : Backoff → ℕ
unfolding scaled
ceiling b = min b.cap (scaled b.base b.attempt)

-- The delay, and the schedule after it. `jitter` scales a duration by the random draw.
unfoldable pub next_delay : (jitter : ℕ → ℕ) → Backoff → ℕ × Backoff
unfolding ceiling
next_delay jitter b = (jitter (ceiling b), record b { attempt = min (2 ^ 32 - 1) (b.attempt + 1) })

base_le : (base n : ℕ) → base ≤ base * 2 ^ n
base_le base n =
    let powers =
      mul-le-mul_left base (pow-le-pow_right {n = 2} (omega arith) {i = 0} {j = n} (omega arith)) in
    omega (arith, powers)

-- Doubling from any earlier attempt stays below doubling from a later one, also where the exponent
-- has turned negative.
pub scaled_le : (base attempt n : ℕ) → attempt ≤ n → scaled base attempt ≤ base * 2 ^ n
unfolding scaled
scaled_le base attempt n h = elim (Bool-cases (ltb attempt (2 ^ 31))) [
  | inl e ↦ rw e (mul-le-mul_left base (pow-le-pow_right {n = 2} (omega arith) h))
  | inr e ↦ rw e (le_trans (div-le_self base (2 ^ (2 ^ 32 - attempt))) (base_le base n))
]

-- What the schedule promises after `n` attempts without a reset.
pub record Backs (first limit n : ℕ) (b : Backoff) : Type 0 where
  pub base : b.base ≡ first
  pub cap : b.cap ≡ limit
  pub attempt : b.attempt ≤ n

module _ (first limit : ℕ) where
  pub reset-Backs : {n : ℕ} (b : Backoff) → Backs first limit n b → Backs first limit 0 (reset b)
  reset-Backs b p = record { base = p.base; cap = p.cap; attempt = omega arith }

  pub next_delay-Backs :
      (jitter : ℕ → ℕ) (n : ℕ) (b : Backoff)
      → ((d : ℕ) → jitter d ≤ d)
      → Backs first limit n b
      → ((next_delay jitter b).0 ≤ min limit (first * 2 ^ n))
        × Backs first limit (suc n) (next_delay jitter b).1
  unfolding next_delay ceiling
  next_delay-Backs jitter n b less p = (
    omega (
      arith,
      less (min b.cap (scaled b.base b.attempt)),
      scaled_le b.base b.attempt n p.attempt,
      ap (λ x. x * 2 ^ n) p.base,
      p.cap,
    ),
    record { base = p.base; cap = p.cap; attempt = omega (arith, p.attempt) },
  )
