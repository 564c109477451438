-- ===== src/Agent/Outcomes.antt =====
-- What `decide` makes of the outcome of a request, on every path.
use solana_smart_tx.Base.{ℕ, ◌≤◌, ◌<◌, ◌≡◌, ◌≢◌, Option, none, some, List, [], map, ◌⊎◌}
use solana_smart_tx.Base.Tests.{nat_eq}
use solana_smart_tx.Base.Text.{Text, trim}
use solana_smart_tx.Agent.Types.{Decision, action_of_wire}
use solana_smart_tx.Agent.Reply.{
  HttpResponse, ContentBlock, ReplyWire, Outcome, err, ok, request_failed, http_status,
  bad_envelope, no_text, bad_decision, strip_code_fences, concat_text,
}

module _ (parse_envelope : Text → Option (List ContentBlock))
    (parse_decision : Text → Option ReplyWire) where
  abbrev Accepted : ℕ → Type 0
  Accepted status = (200 ≤ status) × (status < 300)

  -- What each outcome says of the response.
  abbrev Explains : HttpResponse → Outcome Decision → Type 0
  Explains response (err request_failed) = ⊥
  Explains response (err (http_status status)) =
      (status ≡ response.status) × ((status < 200) ⊎ (300 ≤ status))
  Explains response (err bad_envelope) =
      Accepted response.status × (parse_envelope response.body ≡ none)
  Explains response (err no_text) =
      Accepted response.status
      × ((content : List ContentBlock) × (parse_envelope response.body ≡ some content)
          × (trim (concat_text content) ≡ []))
  Explains response (err bad_decision) =
      Accepted response.status
      × ((content : List ContentBlock) × (parse_envelope response.body ≡ some content)
          × (trim (concat_text content) ≢ [])
          × (parse_decision (strip_code_fences (trim (concat_text content))) ≡ none))
  Explains response (ok d) =
      Accepted response.status
      × ((content : List ContentBlock) × (reply : ReplyWire) × (parse_envelope response.body
            ≡ some content)
          × (trim (concat_text content) ≢ [])
          × (parse_decision (strip_code_fences (trim (concat_text content))) ≡ some reply)
          × (d.actions ≡ map action_of_wire reply.actions)
          × (d.rationale ≡ reply.rationale))

  abbrev pub ExplainsPost : Option HttpResponse → Outcome Decision → Type 0
  ExplainsPost none r = r ≡ err request_failed
  ExplainsPost (some response) r = Explains response r
