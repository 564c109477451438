-- ===== src/Lifecycle/Commitment.antt =====
-- The slot indices against a scan of all tracked bundles: what a confirmed or finalized slot does.
use solana_smart_tx.Base.{
  ℕ, ◌≡◌, refl, inl, inr, Bool, true, false, ◌&&◌, ◌||◌, Option, none, some, List, [], ◌∷◌, ◌++◌,
  arith,
}
use solana_smart_tx.Base.Tests.{nat_eq, string_eq, ◌==◌, leb, if◌then◌else◌, Option-cases}
use solana_smart_tx.Base.Int.{ℤ}
use solana_smart_tx.Base.Lists.{contains, contains-append}
use solana_smart_tx.Base.Map.{get, get-insert, get-remove}
use solana_smart_tx.Lifecycle.Types.{processed, confirmed, Pending, Inner}
use solana_smart_tx.Lifecycle.Index.{drain_le, drained_of_holds, holds_of_drained}
use solana_smart_tx.Lifecycle.Machine.{
  is_processed, is_confirmed, to_confirmed, mark_confirmed, mark_finalized, mark_all,
  apply_confirmed, apply_finalized,
}
use solana_smart_tx.Lifecycle.Cases.{mark_confirmed_cases, mark_finalized_cases}
use solana_smart_tx.Lifecycle.Invariant.{Inv, landing}

-- Whether a bundle landed at a slot up to `n`.
abbrev pub landed_by : ℕ → Option ℕ → Bool
landed_by n none = false
landed_by n (some s) = leb s n

-- The scan: a bundle that has landed by `n` goes, any other stays as it is.
abbrev pub settle : ℕ → Option Pending → Option Pending
settle n none = none
settle n (some p) = if landed_by n p.landed_slot then none else some p

-- The scan: a processed bundle that has landed by `n` is confirmed.
abbrev pub confirm_by : ℕ → ℤ → Option Pending → Option Pending
confirm_by n at none = none
confirm_by n at (some p) =
    if is_processed p.state && landed_by n p.landed_slot then some (to_confirmed p at) else some p

abbrev drop_landed : Option Pending → Option Pending
drop_landed none = none
drop_landed (some p) = if is_processed p.state || is_confirmed p.state then none else some p

abbrev confirm_processed : ℤ → Option Pending → Option Pending
confirm_processed at none = none
confirm_processed at (some p) = if is_processed p.state then some (to_confirmed p at) else some p

finalize_one :
    (at : ℤ) (inner : Inner) (id j : ℕ)
    → get j (mark_finalized at "stream" inner id).0.pending
      ≡ (if id == j then drop_landed (get j inner.pending) else get j inner.pending)
finalize_one at inner id j =
    mark_finalized_cases inner id
      (λ r.
        get j r.0.pending
        ≡ (if id == j then drop_landed (get j inner.pending) else get j inner.pending))
      at "stream"
      (λ idle. elim (Option-cases (get id inner.pending)) [
        | inl e ↦ ground arith
        | inr (p, e) ↦ ground (arith, idle p e)
      ])
      λ p e st. ground (arith, get-remove id j inner.pending)

finalize_all :
    (at : ℤ) (ids : List ℕ) (inner : Inner) (j : ℕ)
    → get j (mark_all (mark_finalized at "stream") inner ids).0.pending
      ≡ (if contains j ids then drop_landed (get j inner.pending) else get j inner.pending)
unfolding mark_all contains
finalize_all at [] inner j = refl
finalize_all at (id ∷ ids) inner j = ground (
  arith,
  finalize_one at inner id j,
  finalize_all at ids (mark_finalized at "stream" inner id).0 j,
)

confirm_one :
    (at : ℤ) (inner : Inner) (id j : ℕ)
    → get j (mark_confirmed at "stream" inner id).0.pending
      ≡ (if id == j then confirm_processed at (get j inner.pending) else get j inner.pending)
confirm_one at inner id j =
    mark_confirmed_cases inner id
      (λ r.
        get j r.0.pending
        ≡ (if id == j then confirm_processed at (get j inner.pending) else get j inner.pending))
      at "stream"
      (λ idle. elim (Option-cases (get id inner.pending)) [
        | inl e ↦ ground arith
        | inr (p, e) ↦ ground (arith, idle p e)
      ])
      λ p e st. ground (arith, get-insert id j (to_confirmed p at) inner.pending)

confirm_all :
    (at : ℤ) (ids : List ℕ) (inner : Inner) (j : ℕ)
    → get j (mark_all (mark_confirmed at "stream") inner ids).0.pending
      ≡ (if contains j ids then confirm_processed at (get j inner.pending) else get j inner.pending)
unfolding mark_all contains
confirm_all at [] inner j = refl
confirm_all at (id ∷ ids) inner j =
    ground (
      arith,
      confirm_one at inner id j,
      confirm_all at ids (mark_confirmed at "stream" inner id).0 j,
    )

-- Under the invariant an id is drained exactly when the bundle has landed by `n`.
module _ (n : ℕ) (inner : Inner) (v : Inv inner) (j : ℕ) where
  confirm_drained_landed :
      contains j (drain_le n inner.confirm_index).0 ≡ true
      → landed_by n (landing (get j inner.pending)) ≡ true
  confirm_drained_landed h =
      let (s, le, held) = holds_of_drained n j inner.confirm_index h in
      ground (arith, v.confirm_sound s j held)

  finalize_drained_landed :
      contains j (drain_le n inner.finalize_index).0 ≡ true
      → landed_by n (landing (get j inner.pending)) ≡ true
  finalize_drained_landed h =
      let (s, le, held) = holds_of_drained n j inner.finalize_index h in
      ground (arith, v.finalize_sound s j held)

  processed_drained :
      (p : Pending)
      → get j inner.pending ≡ some p
      → p.state ≡ processed
      → landed_by n p.landed_slot ≡ true
      → contains j (drain_le n inner.confirm_index).0 ≡ true
  unfolding contains
  processed_drained p e st l = elim (Option-cases p.landed_slot) [
    | inl no_slot ↦ ground arith
    | inr (s, at_s) ↦
        drained_of_holds n s j inner.confirm_index (ground arith)
          (ground (arith, v.confirm_complete s j p e st at_s))
  ]

  confirmed_drained :
      (p : Pending)
      → get j inner.pending ≡ some p
      → p.state ≡ confirmed
      → landed_by n p.landed_slot ≡ true
      → contains j (drain_le n inner.finalize_index).0 ≡ true
  unfolding contains
  confirmed_drained p e st l = elim (Option-cases p.landed_slot) [
    | inl no_slot ↦ ground arith
    | inr (s, at_s) ↦
        drained_of_holds n s j inner.finalize_index (ground arith)
          (ground (arith, v.finalize_complete s j p e st at_s))
  ]

-- Under the invariant a finalized slot `n` does what a scan of all tracked bundles would do: every
-- bundle that landed at or below `n` leaves the memory, also one whose confirmation was never seen,
-- and every other bundle stays as it was.
pub apply_finalized_scan :
    (n : ℕ) (at : ℤ) (inner : Inner) (j : ℕ)
    → Inv inner
    → get j (apply_finalized n at inner).0.pending ≡ settle n (get j inner.pending)
unfolding apply_finalized
apply_finalized_scan n at inner j v = elim (Option-cases (get j inner.pending)) [
  | inl e ↦ ground (arith, all_done)
  | inr (p, e) ↦ ground (
    arith,
    all_done,
    v.coherent j p e,
    contains-append j (drain_le n inner.finalize_index).0 (drain_le n inner.confirm_index).0,
    confirm_drained_landed n inner v j,
    finalize_drained_landed n inner v j,
    processed_drained n inner v j p e,
    confirmed_drained n inner v j p e,
  )
]
  where
    all_done : get j (apply_finalized n at inner).0.pending ≡ (
        if contains j ((drain_le n inner.finalize_index).0 ++ (drain_le n inner.confirm_index).0)
        then drop_landed (get j inner.pending)
        else get j inner.pending)
    all_done =
        finalize_all at ((drain_le n inner.finalize_index).0 ++ (drain_le n inner.confirm_index).0)
          (record inner {
            finalize_index = (drain_le n inner.finalize_index).1;
            confirm_index = (drain_le n inner.confirm_index).1;
          })
          j

-- Under the invariant a confirmed slot `n` does what a scan of all tracked bundles would do: every
-- processed bundle that landed at or below `n` becomes confirmed with the slot's time stamp, and
-- every other bundle stays as it was.
pub apply_confirmed_scan :
    (n : ℕ) (at : ℤ) (inner : Inner) (j : ℕ)
    → Inv inner
    → get j (apply_confirmed n at inner).0.pending ≡ confirm_by n at (get j inner.pending)
unfolding apply_confirmed
apply_confirmed_scan n at inner j v = elim (Option-cases (get j inner.pending)) [
  | inl e ↦ ground (arith, all_done)
  | inr (p, e) ↦
      ground
        (arith, all_done, confirm_drained_landed n inner v j, processed_drained n inner v j p e)
]
  where
    all_done : get j (apply_confirmed n at inner).0.pending ≡ (
        if contains j (drain_le n inner.confirm_index).0
        then confirm_processed at (get j inner.pending)
        else get j inner.pending)
    all_done =
        confirm_all at (drain_le n inner.confirm_index).0
          (record inner { confirm_index = (drain_le n inner.confirm_index).1 }) j
