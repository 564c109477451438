-- ===== src/Failure/Rejection.antt =====
-- crates/failure/src/lib.rs: `classify_submit_rejection` and `looks_like_transport`.
use solana_smart_tx.Base.{Bool, ◌&&◌, ◌||◌, List, [], ◌∷◌, String}
use solana_smart_tx.Base.Tests.{if◌then◌else◌}
use solana_smart_tx.Base.Lists.{any}
use solana_smart_tx.Base.Text.{Text, codes, has, to_lowercase}
use solana_smart_tx.Failure.Types.{
  fee_too_low, bundle_failure, transport_error, certain, likely, lit, debug, Classification,
}

abbrev pub transport_patterns : List String
transport_patterns =
    "error decoding response body" ∷ "eof while parsing" ∷ "transport error" ∷ "request error"
    ∷ "error sending request" ∷ "connection refused" ∷ "connection reset" ∷ "connection closed"
    ∷ "connection error" ∷ "failed to connect" ∷ "error connecting" ∷ "timed out" ∷ "timeout"
    ∷ "dns error" ∷ "could not resolve" ∷ "tcp connect error" ∷ "rate limited" ∷ "network congested"
    ∷ "globally rate limited" ∷ "too many requests" ∷ "http 429" ∷ "-32097" ∷ []

-- `lower.contains(p)`.
unfoldable pub mentions : Text → String → Bool
mentions lower p = has (codes p) lower

unfoldable pub looks_like_transport : Text → Bool
unfolding mentions
looks_like_transport lower = any (mentions lower) transport_patterns

unfoldable pub low_tip : Text → Bool
unfolding mentions
low_tip lower =
    mentions lower "must tip at least"
    || (mentions lower "tip" && (mentions lower "too low" || mentions lower "below"))

unfoldable pub simulation_failed : Text → Bool
unfolding mentions
simulation_failed lower =
    mentions lower "simulation failure"
    || mentions lower "failed to simulate"
    || mentions lower "transaction failure"

unfoldable pub malformed : Text → Bool
unfolding mentions
malformed lower =
    mentions lower "malformed"
    || mentions lower "deserialize"
    || mentions lower "decode"
    || mentions lower "invalid"
    || mentions lower "too many"

unfoldable pub classify_submit_rejection : Text → Classification
classify_submit_rejection raw_error =
    let lower = to_lowercase raw_error in
    if looks_like_transport lower
    then record {
      kind = transport_error;
      confidence = certain;
      rationale =
          lit
            "pre-submission transport/decode failure — bundle never reached the auction; the bundle, blockhash, and tip are not implicated: "
          ∷ debug raw_error
          ∷ [];
    }
    else if low_tip lower
    then record {
      kind = fee_too_low;
      confidence = certain;
      rationale = lit "Block Engine rejected bundle for low tip: " ∷ debug raw_error ∷ [];
    }
    else if simulation_failed lower
    then record {
      kind = bundle_failure;
      confidence = certain;
      rationale = lit "Block Engine reported bundle simulation failure: " ∷ debug raw_error ∷ [];
    }
    else if malformed lower
    then record {
      kind = bundle_failure;
      confidence = certain;
      rationale = lit "Block Engine rejected bundle as malformed/invalid: " ∷ debug raw_error ∷ [];
    }
    else record {
      kind = bundle_failure;
      confidence = likely;
      rationale = lit "unrecognized Block Engine rejection: " ∷ debug raw_error ∷ [];
    }
