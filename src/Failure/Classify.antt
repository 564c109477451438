-- ===== src/Failure/Classify.antt =====
-- crates/failure/src/lib.rs: `classify`, the entry point.
use solana_smart_tx.Failure.Types.{
  Evidence, submit_rejection, on_chain_error, never_landed, Classification,
}
use solana_smart_tx.Failure.Rejection.{classify_submit_rejection}
use solana_smart_tx.Failure.OnChain.{Deserialize, classify_on_chain}
use solana_smart_tx.Failure.NeverLanded.{classify_never_landed}

unfoldable pub classify : Deserialize → Evidence → Classification
classify deserialize (submit_rejection raw_error) = classify_submit_rejection raw_error
classify deserialize (on_chain_error raw_error_hex slot) =
    classify_on_chain deserialize raw_error_hex slot
classify deserialize (never_landed submitted fetched last tip p50 p75 inflight) =
    classify_never_landed submitted fetched last tip p50 p75 inflight
