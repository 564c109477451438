-- ===== src/Submitter/Gateway.antt =====
-- crates/submitter/src/lib.rs: the requests of `LiveGateway` to the block engine, from what reqwest
-- makes of each: `post_text`, the two status requests, and `send_bundle` with its wait after a 429.
use Prim.Native.Nat.{min}
use solana_smart_tx.Base.{ℕ, ◌+◌, ◌-◌, ◌*◌, String, ◌&&◌, Option, none, some, [], ◌∷◌, ◌++◌}
use solana_smart_tx.Base.Tests.{nat_eq, ◌==◌, ltb, leb, if◌then◌else◌}
use solana_smart_tx.Base.Int.{u64_bound}
use solana_smart_tx.Base.Text.{Text, codes, trim}
use solana_smart_tx.Base.Result.{Result, err, ok, ◌>>=◌, map_err}
use solana_smart_tx.Base.Json.{Value, Serde}
use solana_smart_tx.Submitter.TipAccounts.{Response, is_success}
use solana_smart_tx.Submitter.Status.{
  BundleStatus, BundleStatusReport, Detail, decode_error, parse_inflight_status,
  parse_bundle_detail, poll_bundle_status,
}

abbrev pub wait_to_retry_cap_ms : ℕ
wait_to_retry_cap_ms = 2000

-- The value of decimal digits, read from the left; a number that is no `u64` is refused.
unfoldable pub digits : Text → ℕ → Option ℕ
digits [] n = some n
digits (c ∷ s) n =
    let more = digits s (n * 10 + (c - 48)) in
    if leb 48 c && (leb c 57 && ltb (n * 10 + (c - 48)) u64_bound) then more else none

abbrev nonempty_digits : Text → Option ℕ
nonempty_digits [] = none
nonempty_digits (c ∷ s) = digits (c ∷ s) 0

-- `parse::<u64>().ok()`, which allows a plus sign.
unfoldable pub parse_u64 : Text → Option ℕ
unfolding digits
parse_u64 [] = none
parse_u64 (c ∷ s) = if c == 43 then nonempty_digits s else digits (c ∷ s) 0

-- `x-wait-to-retry-ms`.
unfoldable pub wait_hint : Option Text → Option ℕ
unfolding parse_u64 trim
wait_hint none = none
wait_hint (some header) = parse_u64 (trim header)

-- Only a hint above zero is waited for, up to the cap.
abbrev pub wait_for : Option ℕ → ℕ
wait_for none = 0
wait_for (some ms) = min ms wait_to_retry_cap_ms

-- The outcome, and how long it slept before it failed.
pub record Sent : Type 0 where
  pub response : Result Value
  pub slept_ms : ℕ

abbrev pub sent_at_once : Result Value → Sent
sent_at_once r = record { response = r; slept_ms = 0 }

-- `show` prints a status.
module _ (serde : Serde) (show : ℕ → Text) where
  abbrev pub jito_send : Result Response → Result Response
  jito_send response = map_err (λ e. codes "error sending request: " ++ e) response

  -- The status is tested after the body was read.
  abbrev text_or_status : ℕ → Text → Result Text
  text_or_status status text =
      if is_success status
      then ok text
      else err (codes "HTTP " ++ (show status ++ (codes ": " ++ text)))

  unfoldable pub post_text : Result Response → Result Text
  post_text response = do
    r ← jito_send response
    text ← map_err decode_error r.text
    text_or_status r.status text

  unfoldable pub fetch_inflight_status : Result Response → String → Result BundleStatus
  unfolding post_text
  fetch_inflight_status response id = do
    text ← post_text response
    parse_inflight_status serde text id

  unfoldable pub fetch_bundle_detail : Result Response → String → Result Detail
  unfolding post_text
  fetch_bundle_detail response id = do text ← post_text response; parse_bundle_detail serde text id

  -- `poll_bundle_status` over the two requests.
  unfoldable pub poll_live :
      String → (inflight detail : Result Response) → Result BundleStatusReport
  unfolding post_text
  poll_live id inflight detail = poll_bundle_status serde id (post_text inflight) (post_text detail)

  abbrev pub rate_limited : Option Text → Text → Sent
  rate_limited header text = record {
    response = err (codes "sendBundle HTTP 429 (globally rate limited): " ++ text);
    slept_ms = wait_for (wait_hint header);
  }

  abbrev pub read_body : Response → Text → Sent
  read_body r text =
      if r.status == 429
      then rate_limited r.wait_to_retry_ms text
      else if is_success r.status
      then sent_at_once (map_err decode_error (serde.from_str text))
      else sent_at_once (err (codes "sendBundle HTTP " ++ (show r.status ++ (codes ": " ++ text))))

  abbrev pub read_text : Response → Result Text → Sent
  read_text r (err e) = sent_at_once (err (decode_error e))
  read_text r (ok text) = read_body r text

  abbrev pub read_response : Result Response → Sent
  read_response (err e) = sent_at_once (err e)
  read_response (ok r) = read_text r r.text

  -- `send_bundle`.
  unfoldable pub send_bundle : Result Response → Sent
  send_bundle response = read_response (jito_send response)
