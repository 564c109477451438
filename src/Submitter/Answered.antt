-- ===== src/Submitter/Answered.antt =====
-- What `LiveGateway::send_bundle` tells of the response, and how its failures are classed.
use Prim.Native.Nat.{min}
use solana_smart_tx.Base.{ℕ, ◌≡◌, ◌≢◌, true, false, ◌⊎◌, none, some}
use solana_smart_tx.Base.Tests.{nat_eq}
use solana_smart_tx.Base.Text.{Text}
use solana_smart_tx.Base.Result.{Result, err, ok}
use solana_smart_tx.Base.Json.{Value, Serde}
use solana_smart_tx.Failure.Types.{transport_error, certain}
use solana_smart_tx.Failure.Rejection.{classify_submit_rejection}
use solana_smart_tx.Failure.Causes.{verdict}
use solana_smart_tx.Submitter.Types.{display}
use solana_smart_tx.Submitter.Submit.{transport_of}
use solana_smart_tx.Submitter.TipAccounts.{Response, is_success}
use solana_smart_tx.Submitter.Gateway.{wait_to_retry_cap_ms, wait_hint, Sent}

-- Nothing asks for a wait: no response with a body, another status than 429, or no hint.
abbrev pub Unhinted : Result Response → Type 0
Unhinted response =
    ((e : Text) × (response ≡ err e))
    ⊎ ((r : Response) × (response ≡ ok r)
        × (((e : Text) × (r.text ≡ err e))
            ⊎ (r.status ≢ 429)
            ⊎ (wait_hint r.wait_to_retry_ms ≡ none)))

-- The wait is the hint of a 429, if it has one, up to 2 s.
abbrev pub WaitedFor : Result Response → ℕ → Type 0
WaitedFor response slept =
    ((slept ≡ 0) × Unhinted response)
    ⊎ ((r : Response) × (ms : ℕ) × (response ≡ ok r)
        × (r.status ≡ 429)
        × (wait_hint r.wait_to_retry_ms ≡ some ms)
        × (slept ≡ min ms wait_to_retry_cap_ms))

-- Why a request came to nothing: it was not sent, its body was not read, its status or its body is bad.
abbrev pub Unanswered : Serde → Result Response → Type 0
Unanswered serde response =
    ((e : Text) × (response ≡ err e))
    ⊎ ((r : Response) × (response ≡ ok r)
        × (((e : Text) × (r.text ≡ err e))
            ⊎ (is_success r.status ≡ false)
            ⊎ ((text : Text) × (e : Text) × (r.text ≡ ok text) × (serde.from_str text ≡ err e))))

abbrev pub Answers : Serde → Result Response → Result Value → ℕ → Type 0
Answers serde response (ok v) slept =
    (r : Response) × (text : Text) × (response ≡ ok r)
    × (is_success r.status ≡ true)
    × (r.text ≡ ok text)
    × (serde.from_str text ≡ ok v)
    × (slept ≡ 0)
Answers serde response (err e) slept =
    Unanswered serde response
    × WaitedFor response slept
    × (verdict (classify_submit_rejection (display (transport_of "send_bundle" e)))
        ≡ (transport_error, certain))

module _ (serde : Serde) (show : ℕ → Text) where
  abbrev Tells : Result Response → Sent → Type 0
  Tells response s = Answers serde response s.response s.slept_ms
