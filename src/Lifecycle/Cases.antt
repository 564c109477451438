-- ===== src/Lifecycle/Cases.antt =====
-- Case rules for the transitions: each either leaves the state alone or fires on a tracked bundle.
use solana_smart_tx.Base.{ℕ, String, ◌≡◌, ◌⊎◌, inl, inr, ◌||◌, Option, none, some, arith}
use solana_smart_tx.Base.Tests.{nat_eq, Bool-cases, Option-cases}
use solana_smart_tx.Base.Int.{ℤ, ◌-ℤ◌, to_i64}
use solana_smart_tx.Base.Map.{get, insert}
use solana_smart_tx.Failure.Types.{Classification}
use solana_smart_tx.Lifecycle.Types.{
  submitted, processed, confirmed, Pending, Inner, Write, set_processed, set_confirmed,
  set_finalized,
}
use solana_smart_tx.Lifecycle.Index.{put}
use solana_smart_tx.Lifecycle.Machine.{
  is_submitted, is_processed, is_confirmed, map_option, put_at, forgotten, forget, failed_write,
  to_processed, to_confirmed, mark_processed, mark_confirmed, mark_finalized, fail_landed,
}

module _ {ℓ} (inner : Inner) (id : ℕ) (P : Inner × Option Write → Type ℓ) where
  pub mark_processed_cases :
      (slot : ℕ) (at : ℤ) (source : String)
      → (((p : Pending) → get id inner.pending ≡ some p → ¬ (p.state ≡ submitted))
          → P (inner, none))
      → ((p : Pending)
          → get id inner.pending ≡ some p
          → p.state ≡ submitted
          → P (
            record inner {
              pending = insert id (to_processed p slot at) inner.pending;
              confirm_index = put slot id inner.confirm_index;
            },
            some (set_processed id at (to_i64 slot) (some (at -ℤ p.submitted_at_ms)) source),
          ))
      → P (mark_processed slot at source inner id)
  unfolding mark_processed
  mark_processed_cases slot at source same fires = elim (Option-cases (get id inner.pending)) [
    | inl e ↦ rw (e, mark_processed) (same (λ q h. cc))
    | inr (p, e) ↦ elim (Bool-cases (is_submitted p.state)) [
      | inl b ↦ rw (e, mark_processed) (rw b (fires p e (ground arith)))
      | inr b ↦ rw (e, mark_processed) (rw b (same (λ q h. ground arith)))
    ]
  ]

  pub mark_confirmed_cases :
      (at : ℤ) (source : String)
      → (((p : Pending) → get id inner.pending ≡ some p → ¬ (p.state ≡ processed))
          → P (inner, none))
      → ((p : Pending)
          → get id inner.pending ≡ some p
          → p.state ≡ processed
          → P (
            record inner {
              pending = insert id (to_confirmed p at) inner.pending;
              finalize_index = put_at p.landed_slot id inner.finalize_index;
            },
            some (set_confirmed id at (map_option (λ x. at -ℤ x) p.processed_at_ms) source),
          ))
      → P (mark_confirmed at source inner id)
  unfolding mark_confirmed
  mark_confirmed_cases at source same fires = elim (Option-cases (get id inner.pending)) [
    | inl e ↦ rw (e, mark_confirmed) (same (λ q h. cc))
    | inr (p, e) ↦ elim (Bool-cases (is_processed p.state)) [
      | inl b ↦ rw (e, mark_confirmed) (rw b (fires p e (ground arith)))
      | inr b ↦ rw (e, mark_confirmed) (rw b (same (λ q h. ground arith)))
    ]
  ]

  pub mark_finalized_cases :
      (at : ℤ) (source : String)
      → (((p : Pending)
            → get id inner.pending ≡ some p
            → ¬ ((p.state ≡ processed) ⊎ (p.state ≡ confirmed)))
          → P (inner, none))
      → ((p : Pending)
          → get id inner.pending ≡ some p
          → (p.state ≡ processed) ⊎ (p.state ≡ confirmed)
          → P (
            forgotten inner id p,
            some (set_finalized id at (map_option (λ c. at -ℤ c) p.confirmed_at_ms) source),
          ))
      → P (mark_finalized at source inner id)
  unfolding mark_finalized forget
  mark_finalized_cases at source same fires = elim (Option-cases (get id inner.pending)) [
    | inl e ↦ rw (e, mark_finalized) (same (λ q h. cc))
    | inr (p, e) ↦ elim (Bool-cases (is_processed p.state || is_confirmed p.state)) [
      | inl b ↦ rw (e, mark_finalized) (rw b (rw (e, forget) (fires p e (ground arith))))
      | inr b ↦ rw (e, mark_finalized) (rw b (same (λ q h. ground arith)))
    ]
  ]

  pub fail_landed_cases :
      (c : Classification) (slot : ℕ) (at : ℤ)
      → (((p : Pending)
            → get id inner.pending ≡ some p
            → ¬ ((p.state ≡ submitted) ⊎ (p.state ≡ processed)))
          → P (inner, none))
      → ((p : Pending)
          → get id inner.pending ≡ some p
          → (p.state ≡ submitted) ⊎ (p.state ≡ processed)
          → P (
            forgotten inner id p,
            some (
                failed_write id c
                  (some (to_i64 slot))
                  (some at)
                  (some (at -ℤ p.submitted_at_ms))
                  at),
          ))
      → P (fail_landed c slot at inner id)
  unfolding fail_landed forget
  fail_landed_cases c slot at same fires = elim (Option-cases (get id inner.pending)) [
    | inl e ↦ rw (e, fail_landed) (same (λ q h. cc))
    | inr (p, e) ↦ elim (Bool-cases (is_submitted p.state || is_processed p.state)) [
      | inl b ↦ rw (e, fail_landed) (rw b (rw (e, forget) (fires p e (ground arith))))
      | inr b ↦ rw (e, fail_landed) (rw b (same (λ q h. ground arith)))
    ]
  ]

pub forget_cases {ℓ} :
    (inner : Inner) (id : ℕ) (P : Inner → Type ℓ)
    → (get id inner.pending ≡ none → P inner)
    → ((p : Pending) → get id inner.pending ≡ some p → P (forgotten inner id p))
    → P (forget inner id)
unfolding forget
forget_cases inner id P same gone = elim (Option-cases (get id inner.pending)) [
  | inl e ↦ rw (e, forget) (same e)
  | inr (p, e) ↦ rw (e, forget) (gone p e)
]
