-- ===== src/Failure/Causes.antt =====
-- What the classifier names as the root cause of a bundle that never landed.
use solana_smart_tx.Base.{
  ℕ, ◌+◌, ◌-◌, ◌<◌, ◌≤◌, ◌≡◌, refl, ap, ◌↔◌, inl, inr, ◌⊎◌, Option, none, some, List, [], ◌∷◌,
  arith,
}
use solana_smart_tx.Base.Tests.{ltb, if◌then◌else◌, Bool-cases}
use solana_smart_tx.Failure.Types.{
  FailureKind, JitoInflight, invalid, failed, expired_blockhash, fee_too_low, auction_lost,
  bundle_failure, Confidence, certain, likely, ambiguous, Piece, Classification,
}
use solana_smart_tx.Failure.NeverLanded.{
  blockhash_validity_slots, below_median, lost_auction, classify_never_landed,
}

abbrev auction_confidence : JitoInflight → Confidence
auction_confidence invalid = certain
auction_confidence failed = likely
auction_confidence _ = ambiguous (bundle_failure ∷ [])

abbrev pub verdict : Classification → FailureKind × Confidence
verdict c = (c.kind, c.confidence)

lost_auction_lem :
    (j : JitoInflight) (ctx : List Piece)
    → verdict (lost_auction j ctx) ≡ (auction_lost, auction_confidence j)
unfolding lost_auction
lost_auction_lem invalid ctx = refl
lost_auction_lem failed ctx = refl
lost_auction_lem _ ctx = refl

-- The documented order of causes, on the facts known at submission.
abbrev root_cause : ℕ → ℕ → ℕ → Option ℕ → JitoInflight → FailureKind × Confidence
root_cause submitted fetched tip p50 inflight =
    if ltb blockhash_validity_slots (submitted - fetched)
    then (expired_blockhash, certain)
    else if below_median tip p50
    then (fee_too_low, likely)
    else (auction_lost, auction_confidence inflight)

never_landed_verdict :
    (submitted fetched last tip : ℕ) (p50 p75 : Option ℕ) (inflight : JitoInflight)
    → verdict (classify_never_landed submitted fetched last tip p50 p75 inflight)
      ≡ root_cause submitted fetched tip p50 inflight
unfolding classify_never_landed
never_landed_verdict submitted fetched last tip p50 p75 inflight =
    elim (Bool-cases (ltb blockhash_validity_slots (submitted - fetched))) [
      | inl old ↦ rw old refl
      | inr valid ↦ rw valid (elim (Bool-cases (below_median tip p50)) [
        | inl low ↦ rw low refl
        | inr fair ↦ rw fair (lost_auction_lem inflight _)
      ])
    ]

-- The causes, in the order in which they are looked for.
abbrev pub HasCause : ℕ → ℕ → ℕ → Option ℕ → JitoInflight → FailureKind × Confidence → Type 0
HasCause submitted fetched tip p50 inflight v =
    ((150 + fetched < submitted) × (v ≡ (expired_blockhash, certain)))
    ⊎ ((submitted ≤ 150 + fetched)
        × ((median : ℕ) × (p50 ≡ some median) × (tip < median))
        × (v ≡ (fee_too_low, likely)))
    ⊎ ((submitted ≤ 150 + fetched)
        × ((median : ℕ) → p50 ≡ some median → median ≤ tip)
        × (v ≡ (auction_lost, auction_confidence inflight)))

root_cause-HasCause :
    (submitted fetched tip : ℕ) (p50 : Option ℕ) (inflight : JitoInflight)
    → HasCause submitted fetched tip p50 inflight (root_cause submitted fetched tip p50 inflight)
root_cause-HasCause submitted fetched tip none inflight =
    elim (Bool-cases (ltb blockhash_validity_slots (submitted - fetched))) [
      | inl old ↦ inl (ground arith, rw old refl)
      | inr valid ↦ inr (inr (ground arith, (λ m e. cc), rw valid refl))
    ]
root_cause-HasCause submitted fetched tip (some median) inflight =
    elim (Bool-cases (ltb blockhash_validity_slots (submitted - fetched))) [
      | inl old ↦ inl (ground arith, rw old refl)
      | inr valid ↦ elim (Bool-cases (ltb tip median)) [
        | inl low ↦ inr (inl (ground arith, (median, refl, ground arith), rw valid (rw low refl)))
        | inr fair ↦ inr (inr (ground arith, (λ m e. ground arith), rw valid (rw fair refl)))
      ]
    ]

-- The class and confidence of a bundle that never landed follow the documented order of causes: an
-- expired blockhash, for certain, if it was more than 150 slots old at submission; else a low tip,
-- likely, if there was a median at submission and the tip was strictly below it; else a lost auction,
-- as sure as Jito's last verdict makes it: certain after `Invalid`, likely after `Failed`, and
-- otherwise ambiguous with a bundle failure. The slot at which the bundle was given up does not count.
pub never_landed_cause :
    (submitted fetched last tip : ℕ) (p50 p75 : Option ℕ) (inflight : JitoInflight)
    → HasCause submitted fetched tip p50 inflight
        (verdict (classify_never_landed submitted fetched last tip p50 p75 inflight))
never_landed_cause submitted fetched last tip p50 p75 inflight =
    rw (never_landed_verdict submitted fetched last tip p50 p75 inflight)
      (root_cause-HasCause submitted fetched tip p50 inflight)

expired_of_kind :
    (submitted fetched last tip : ℕ) (p50 p75 : Option ℕ) (inflight : JitoInflight)
    → (classify_never_landed submitted fetched last tip p50 p75 inflight).kind ≡ expired_blockhash
    → blockhash_validity_slots + fetched < submitted
expired_of_kind submitted fetched last tip p50 p75 inflight e = ground (
  arith,
  ap (λ (v : FailureKind × Confidence). v.0)
      (never_landed_verdict submitted fetched last tip p50 p75 inflight),
)

expired_kind :
    (submitted fetched last tip : ℕ) (p50 p75 : Option ℕ) (inflight : JitoInflight)
    → blockhash_validity_slots + fetched < submitted
    → (classify_never_landed submitted fetched last tip p50 p75 inflight).kind ≡ expired_blockhash
expired_kind submitted fetched last tip p50 p75 inflight e = ground (
  arith,
  ap (λ (v : FailureKind × Confidence). v.0)
      (never_landed_verdict submitted fetched last tip p50 p75 inflight),
)

-- A bundle that never landed is classed as expired exactly when its blockhash was more than 150
-- slots old when it was submitted.
pub never_landed_expired_iff :
    (submitted fetched last tip : ℕ) (p50 p75 : Option ℕ) (inflight : JitoInflight)
    → ((classify_never_landed submitted fetched last tip p50 p75 inflight).kind ≡ expired_blockhash)
      ↔ (blockhash_validity_slots + fetched < submitted)
never_landed_expired_iff submitted fetched last tip p50 p75 inflight = (
  expired_of_kind submitted fetched last tip p50 p75 inflight,
  expired_kind submitted fetched last tip p50 p75 inflight,
)
