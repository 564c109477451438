-- ===== src/Agent/Reply.antt =====
-- crates/agent/src/lib.rs: the reply of the model, from the HTTP response to a decision. Errors are
-- values; serde's parsers and the transport are parameters.
use solana_smart_tx.Base.{ℕ, String, ◌&&◌, ◌||◌, Option, none, some, List, [], ◌∷◌, ◌++◌, map}
use solana_smart_tx.Base.Tests.{string_eq, nat_eq, ◌==◌, ltb, leb, if◌then◌else◌}
use solana_smart_tx.Base.Text.{Text, codes, strip_prefix, trim}
use mathlib.Core.List.{reverse}
use solana_smart_tx.Agent.Types.{ActionWire, action_of_wire, Decision}

pub record HttpResponse : Type 0 where
  pub status : ℕ
  pub body : Text

pub record ContentBlock : Type 0 where
  pub kind : String
  pub text : Text

pub record ReplyWire : Type 0 where
  pub actions : List ActionWire
  pub rationale : String

pub data ReplyError : Type 0 where
  request_failed : ReplyError
  http_status : (status : ℕ) → ReplyError
  bad_envelope no_text bad_decision : ReplyError

pub data Outcome (A : Type 0) : Type 0 where
  err : ReplyError → Outcome A
  ok : A → Outcome A

-- `str::strip_suffix`.
unfoldable strip_suffix : Text → Text → Option Text
strip_suffix suffix s = elim (strip_prefix (reverse suffix) (reverse s)) [
  | none ↦ none
  | some rest ↦ some (reverse rest)
]

abbrev or_else {ℓ} : {A : Type ℓ} → Option A → A → A
or_else none a = a
or_else (some b) a = b

-- `trim_start_matches(['\n', '\r'])`.
unfoldable trim_newlines : Text → Text
trim_newlines [] = []
trim_newlines (c ∷ s) = let rest = trim_newlines s in if c == 10 || c == 13 then rest else c ∷ s

abbrev after_fence : Text → Text
after_fence rest =
    let body = trim_newlines (or_else (strip_prefix (codes "json") rest) rest) in
    trim (or_else (strip_suffix (codes "```") body) body)

unfoldable pub strip_code_fences : Text → Text
unfolding trim_newlines strip_suffix
strip_code_fences s = elim (strip_prefix (codes "```") (trim s)) [
  | none ↦ trim s
  | some rest ↦ after_fence rest
]

-- The texts of the `text` blocks, in order.
unfoldable pub concat_text : List ContentBlock → Text
concat_text [] = []
concat_text (b ∷ bs) = if b.kind == "text" then b.text ++ concat_text bs else concat_text bs

module _ (parse_envelope : Text → Option (List ContentBlock))
    (parse_decision : Text → Option ReplyWire) where
  abbrev pub check_text : Text → Outcome Text
  check_text text = elim (trim text) [ [] ↦ err no_text | c ∷ s ↦ ok text ]

  unfoldable pub extract_text : Text → Outcome Text
  unfolding concat_text
  extract_text body = elim (parse_envelope body) [
    | none ↦ err bad_envelope
    | some content ↦ check_text (concat_text content)
  ]

  unfoldable pub parse_reply : Text → Outcome Decision
  unfolding strip_code_fences action_of_wire
  parse_reply text = elim (parse_decision (strip_code_fences (trim text))) [
    | none ↦ err bad_decision
    | some reply ↦
        ok (record { actions = map action_of_wire reply.actions; rationale = reply.rationale })
  ]

  abbrev pub then_parse : Outcome Text → Outcome Decision
  then_parse (err e) = err e
  then_parse (ok text) = parse_reply text

  -- `FailureReasoningAgent::decide`, given the outcome of the POST.
  unfoldable pub decide : Option HttpResponse → Outcome Decision
  unfolding extract_text parse_reply
  decide none = err request_failed
  decide (some response) =
      if leb 200 response.status && ltb response.status 300
      then then_parse (extract_text response.body)
      else err (http_status response.status)
