-- ===== src/Orchestrator/Tips.antt =====
-- What the tip policy promises.
use solana_smart_tx.Base.{ℕ, ◌≤◌, ◌≡◌, refl, ◌↔◌, Bool, true, false, Option, none, some, arith}
use Prim.Native.Nat.{min, max}
use solana_smart_tx.Lifecycle.Machine.{map_option}
use solana_smart_tx.Tips.Types.{TipSnapshot}
use solana_smart_tx.Orchestrator.Policy.{
  TipPercentile, p50, p75, p95, select, TipPolicy, normal_tip_policy,
}

-- The snapshot's percentiles by their names.
abbrev pub lamports_at : TipPercentile → TipSnapshot → ℕ
lamports_at p50 s = s.p50_lamports
lamports_at p75 s = s.p75_lamports
lamports_at p95 s = s.p95_lamports

-- What is promised of the policy's result.
abbrev pub Priced : Option TipSnapshot → Bool → TipPercentile → ℕ → TipPolicy → Type 0
Priced snapshot is_stale percentile max_tip policy =
    (policy.tip ≤ max_tip)
    × (1000 ≤ max_tip → 1000 ≤ policy.tip)
    × ((policy.source ≡ "live") ↔ ((s : TipSnapshot) × (snapshot ≡ some s) × (is_stale ≡ false)))
    × ((s : TipSnapshot)
        → snapshot ≡ some s
        → is_stale ≡ false
        → 1000 ≤ lamports_at percentile s
        → lamports_at percentile s ≤ max_tip
        → policy.tip ≡ lamports_at percentile s)
    × (policy.p50 ≡ map_option (λ (s : TipSnapshot). s.p50_lamports) snapshot)
    × (policy.p75 ≡ map_option (λ (s : TipSnapshot). s.p75_lamports) snapshot)

chosen_lem :
    (percentile : TipPercentile) (s s' : TipSnapshot) (max_tip : ℕ)
    → some s ≡ some s'
    → 1000 ≤ lamports_at percentile s'
    → lamports_at percentile s' ≤ max_tip
    → min (max (select percentile s) 1000) max_tip ≡ lamports_at percentile s'
unfolding select
chosen_lem p50 s s' max_tip e low high =
    let same : s.p50_lamports ≡ s'.p50_lamports = cc in omega (arith, same, low, high)
chosen_lem p75 s s' max_tip e low high =
    let same : s.p75_lamports ≡ s'.p75_lamports = cc in omega (arith, same, low, high)
chosen_lem p95 s s' max_tip e low high =
    let same : s.p95_lamports ≡ s'.p95_lamports = cc in omega (arith, same, low, high)

pub normal_tip_policy-Priced :
    (snapshot : Option TipSnapshot) (is_stale : Bool) (percentile : TipPercentile) (max_tip : ℕ)
    → Priced snapshot is_stale percentile max_tip
        (normal_tip_policy snapshot is_stale percentile max_tip)
unfolding normal_tip_policy select
normal_tip_policy-Priced none is_stale percentile max_tip = (
  omega arith,
  (λ h. omega arith),
  ((λ h. cc), λ (s, e, stale). cc),
  (λ s e stale low high. cc),
  refl,
  refl,
)
normal_tip_policy-Priced (some s) false percentile max_tip = (
  omega arith,
  (λ h. omega arith),
  ((λ h. (s, refl, refl)), λ h. refl),
  (λ s' e stale low high. chosen_lem percentile s s' max_tip e low high),
  refl,
  refl,
)
normal_tip_policy-Priced (some s) true percentile max_tip = (
  omega arith,
  (λ h. omega arith),
  ((λ h. cc), λ (s', e, stale). cc),
  (λ s' e stale low high. cc),
  refl,
  refl,
)
