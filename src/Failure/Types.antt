-- ===== src/Failure/Types.antt =====
-- crates/failure/src/lib.rs: the taxonomy, the evidence and the result of the classifier.
use solana_smart_tx.Base.{ℕ, String, Option, none, some, List, [], ◌∷◌}
use solana_smart_tx.Base.Tests.{◌==◌, if◌then◌else◌}
use solana_smart_tx.Base.Text.{Text, codes, text_eq, trim, to_ascii_lowercase}
use mathlib.Core.List.{map}
use Prim.Native.String.{◌++◌}

pub data FailureKind : Type 0 where
  expired_blockhash fee_too_low compute_exceeded bundle_failure transport_error auction_lost :
      FailureKind

pub data JitoInflight : Type 0 where
  invalid failed pending landed unknown not_polled : JitoInflight

abbrev verdict_of : Text → JitoInflight
verdict_of v =
    if v == codes "invalid"
    then invalid
    else if v == codes "failed"
    then failed
    else if v == codes "pending"
    then pending
    else if v == codes "landed"
    then landed
    else if v == []
    then not_polled
    else unknown

-- `JitoInflight::from_status_str`.
unfoldable pub from_status_str : Option Text → JitoInflight
from_status_str none = not_polled
from_status_str (some s) = verdict_of (map to_ascii_lowercase (trim s))

pub data Evidence : Type 0 where
  submit_rejection : (raw_error : Text) → Evidence
  on_chain_error : (raw_error_hex : Text) (slot : ℕ) → Evidence
  never_landed :
      (submitted_slot blockhash_fetched_at_slot last_observed_slot tip_lamports : ℕ)
      (tip_p50_at_submit tip_p75_at_submit : Option ℕ) (jito_inflight : JitoInflight)
      → Evidence

pub data Confidence : Type 0 where
  certain : Confidence
  likely : Confidence
  ambiguous : (alternatives : List FailureKind) → Confidence

-- A rationale before it is printed: the literal parts and the values of a `format!`, in order.
-- `debug` is a text printed by `{:?}`.
pub data Piece : Type 0 where
  lit : String → Piece
  num : ℕ → Piece
  debug : Text → Piece

pub record Classification : Type 0 where
  pub kind : FailureKind
  pub confidence : Confidence
  pub rationale : List Piece

-- The derived `Debug` of a kind, `{:?}`.
unfoldable pub kind_label : FailureKind → String
kind_label expired_blockhash = "ExpiredBlockhash"
kind_label fee_too_low = "FeeTooLow"
kind_label compute_exceeded = "ComputeExceeded"
kind_label bundle_failure = "BundleFailure"
kind_label transport_error = "TransportError"
kind_label auction_lost = "AuctionLost"

abbrev join_labels : List FailureKind → String
join_labels [] = ""
join_labels (k ∷ []) = kind_label k
join_labels (k ∷ ks) = kind_label k ++ ", " ++ join_labels ks

-- crates/lifecycle/src/lib.rs, `confidence_label`.
unfoldable pub confidence_label : Confidence → String
unfolding kind_label
confidence_label certain = "Certain"
confidence_label likely = "Likely"
confidence_label (ambiguous []) = "Ambiguous"
confidence_label (ambiguous (k ∷ ks)) = "Ambiguous(alt: " ++ join_labels (k ∷ ks) ++ ")"
