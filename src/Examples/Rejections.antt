-- ===== src/Examples/Rejections.antt =====
-- The classifier on concrete evidence.
use solana_smart_tx.Base.{◌≡◌, refl, none, some, [], ◌∷◌, arith, false}
use solana_smart_tx.Base.Text.{Text, codes, has, starts_with, to_lowercase, lower_char}
use solana_smart_tx.Failure.Types.{transport_error, not_polled}
use solana_smart_tx.Failure.Rejection.{looks_like_transport, mentions, classify_submit_rejection}
use solana_smart_tx.Failure.NeverLanded.{classify_never_landed}
use solana_smart_tx.Failure.Hex.{decode_hex, to_hex, hex_encode}
use solana_smart_tx.Failure.Causes.{verdict, HasCause, never_landed_cause}
use solana_smart_tx.Failure.RoundTrip.{decode_hex-encoded}

never_landed_cause_example :
    HasCause 1010 1000 5000
      (some 8000)
      not_polled
      (verdict (classify_never_landed 1010 1000 1200 5000 (some 8000) none not_polled))
never_landed_cause_example = never_landed_cause 1010 1000 1200 5000 (some 8000) none not_polled

is_transport : (classify_submit_rejection (codes "connection reset")).kind ≡ transport_error
unfolding classify_submit_rejection looks_like_transport mentions has starts_with to_lowercase
    lower_char
is_transport = refl

abbrev low_tip_text : Text
low_tip_text = codes "Tip too low"

no_transport : looks_like_transport (to_lowercase low_tip_text) ≡ false
unfolding looks_like_transport mentions has starts_with to_lowercase lower_char
no_transport = refl

decode_hex-encoded_example :
    (decode_hex (hex_encode (7 ∷ 255 ∷ [])) ≡ some (7 ∷ 255 ∷ []))
    × (decode_hex (to_hex (7 ∷ 255 ∷ [])) ≡ some (7 ∷ 255 ∷ []))
decode_hex-encoded_example =
    decode_hex-encoded (7 ∷ 255 ∷ []) (λ e. cc) (omega arith, (omega arith, tt))
