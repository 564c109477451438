-- ===== src/Failure/NeverLanded.antt =====
-- crates/failure/src/lib.rs: `classify_never_landed` and `tip_context`.
use solana_smart_tx.Base.{ℕ, ◌-◌, Bool, false, Option, none, some, List, [], ◌∷◌, ◌++◌}
use solana_smart_tx.Base.Tests.{ltb, if◌then◌else◌}
use solana_smart_tx.Failure.Types.{
  JitoInflight, invalid, failed, expired_blockhash, fee_too_low, bundle_failure, auction_lost,
  certain, likely, ambiguous, Piece, lit, num, Classification,
}

abbrev pub blockhash_validity_slots : ℕ
blockhash_validity_slots = 150

unfoldable pub tip_context : ℕ → Option ℕ → Option ℕ → List Piece
tip_context tip (some p50) (some p75) =
    lit "tip "
    ∷ num tip
    ∷ lit " lamports (p50 "
    ∷ num p50
    ∷ lit ", p75 "
    ∷ num p75
    ∷ lit " at submit)"
    ∷ []
tip_context tip (some p50) none =
    lit "tip " ∷ num tip ∷ lit " lamports (p50 " ∷ num p50 ∷ lit " at submit)" ∷ []
tip_context tip none p75 =
    lit "tip " ∷ num tip ∷ lit " lamports (no tip floor reference at submit)" ∷ []

-- `tip_p50_at_submit.map(|p50| tip_lamports < p50).unwrap_or(false)`.
abbrev pub below_median : ℕ → Option ℕ → Bool
below_median tip none = false
below_median tip (some p50) = ltb tip p50

-- The number that `expect` takes out where the tip was below it.
abbrev median_piece : Option ℕ → List Piece
median_piece none = []
median_piece (some p50) = num p50 ∷ []

unfoldable pub aged_symptom : ℕ → List Piece
aged_symptom age_at_last =
    if ltb blockhash_validity_slots age_at_last
    then lit " (its blockhash later aged to "
      ∷ num age_at_last
      ∷ lit " slots, past ~"
      ∷ num blockhash_validity_slots
      ∷ lit " — a downstream symptom of sitting unlanded, not the cause)"
      ∷ []
    else []

-- Cases 3 and 4: the auction was lost, as Jito says or as is inferred.
unfoldable pub lost_auction : JitoInflight → List Piece → Classification
lost_auction invalid ctx = record {
  kind = auction_lost;
  confidence = certain;
  rationale =
      lit
        "never landed: block engine accepted the bundle (a bundle_id was returned) but getInflightBundleStatuses returned Invalid — the bundle is not in Jito's system / never entered its auction; it did not win. "
      ∷ ctx;
}
lost_auction failed ctx = record {
  kind = auction_lost;
  confidence = likely;
  rationale =
      lit
        "never landed: block engine accepted the bundle (a bundle_id was returned) but getInflightBundleStatuses returned Failed (all regions failed/expired or it landed elsewhere) — it lost its auction. "
      ∷ ctx;
}
lost_auction _ ctx = record {
  kind = auction_lost;
  confidence = ambiguous (bundle_failure ∷ []);
  rationale =
      lit "never landed though the blockhash was valid at submission and the tip was competitive: "
      ∷ ctx;
}

-- The last branch's rationale has a sentence between the tip context and the aged symptom.
abbrev closing : JitoInflight → List Piece
closing invalid = []
closing failed = []
closing _ =
    lit
      " — most likely lost the auction (or a skipped/dropped Jito leader slot); getInflightBundleStatuses was not a definitive Invalid/Failed when last polled"
    ∷ []

unfoldable pub classify_never_landed :
    ℕ → ℕ → ℕ → ℕ → Option ℕ → Option ℕ → JitoInflight → Classification
classify_never_landed submitted fetched last tip p50 p75 inflight =
    let age_at_submit = submitted - fetched in
    let symptom = aged_symptom (last - fetched) in
    let tip_ctx = tip_context tip p50 p75 in
    if ltb blockhash_validity_slots age_at_submit
    then record {
      kind = expired_blockhash;
      confidence = certain;
      rationale =
          lit "never landed: blockhash was ALREADY "
          ∷ num age_at_submit
          ∷ lit " slots old at submission (fetched slot "
          ∷ num fetched
          ∷ lit ", submitted slot "
          ∷ num submitted
          ∷ lit ", validity ~"
          ∷ num blockhash_validity_slots
          ∷ lit ") — stale before it ever reached the auction; "
          ∷ tip_ctx;
    }
    else if below_median tip p50
    then record {
      kind = fee_too_low;
      confidence = likely;
      rationale =
          lit "never landed: "
          ∷ (tip_ctx
              ++ (lit " — tip below p50 "
                  ∷ (median_piece p50
                      ++ (lit " (under market) is the likely root cause (outbid in the auction)"
                          ∷ symptom))));
    }
    else lost_auction inflight (tip_ctx ++ (closing inflight ++ symptom))
