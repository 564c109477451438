-- ===== src/Submitter/Status.antt =====
-- crates/submitter/src/lib.rs: what Jito says of a bundle, from the responses of
-- `getInflightBundleStatuses` and `getBundleStatuses`.
use solana_smart_tx.Base.{
  ℕ, String, Bool, true, false, Option, none, some, List, [], ◌∷◌, ◌++◌, map,
}
use solana_smart_tx.Base.Tests.{RustEq, string_eq, ◌==◌, if◌then◌else◌}
use solana_smart_tx.Base.Text.{Text, codes, text_eq, to_ascii_lowercase}
use solana_smart_tx.Base.Result.{Result, err, ok, ◌>>=◌, map_err}
use solana_smart_tx.Base.Json.{Value, Serde, member, as_array, as_str, as_u64, and_then, strings}

pub data BundleStatus : Type 0 where
  invalid pending failed landed : BundleStatus
  unknown : String → BundleStatus

unfoldable pub parse_status : String → BundleStatus
unfolding to_ascii_lowercase
parse_status s =
    let l = map to_ascii_lowercase (codes s) in
    if l == codes "invalid"
    then invalid
    else if l == codes "pending"
    then pending
    else if l == codes "failed"
    then failed
    else if l == codes "landed"
    then landed
    else unknown s

unfoldable pub is_terminal : BundleStatus → Bool
is_terminal landed = true
is_terminal failed = true
is_terminal invalid = true
is_terminal pending = false
is_terminal (unknown s) = false

unfoldable pub status_str : BundleStatus → String
status_str invalid = "Invalid"
status_str pending = "Pending"
status_str failed = "Failed"
status_str landed = "Landed"
status_str (unknown s) = s

-- The slot, the confirmation status and the signatures.
pub record Detail : Type 0 where
  pub landed_slot : Option ℕ
  pub confirmation_status : Option String
  pub signatures : List String

abbrev pub no_detail : Detail
no_detail = record { landed_slot = none; confirmation_status = none; signatures = [] }

pub record BundleStatusReport : Type 0 where
  pub bundle_id : String
  pub status : BundleStatus
  pub detail : Detail

abbrev pub decode_error : Text → Text
decode_error e = codes "error decoding response body: " ++ e

abbrev pub is_some {ℓ} : {A : Type ℓ} ⦃e : RustEq A⦄ → Option A → A → Bool
is_some none a = false
is_some (some b) a = b == a

-- The first entry with the bundle's id.
unfoldable pub find_entry : String → List Value → Option Value
find_entry id [] = none
find_entry id (e ∷ es) =
    if is_some (and_then (member "bundle_id" e) as_str) id then some e else find_entry id es

-- `result.value`, if it is an array.
abbrev pub entries_of : Value → Option (List Value)
entries_of v = and_then (and_then (member "result" v) (member "value")) as_array

-- The entry of the bundle, if the response has one and no `error`.
unfoldable pub entry_of : (method : String) → Serde → String → Value → Result (Option Value)
unfolding find_entry
entry_of method serde id v = elim (member "error" v) [
  | some e ↦ err (codes method ++ codes " error: " ++ serde.print e)
  | none ↦ ok (and_then (entries_of v) (find_entry id))
]

abbrev pub status_of_entry : Option Value → BundleStatus
unfolding parse_status
status_of_entry none = invalid
status_of_entry (some e) = elim (and_then (member "status" e) as_str) [
  | none ↦ parse_status "Invalid"
  | some s ↦ parse_status s
]

abbrev pub signatures_of : Option (List Value) → List String
signatures_of none = []
signatures_of (some vs) = strings vs

abbrev pub detail_of_entry : Option Value → Detail
detail_of_entry none = no_detail
detail_of_entry (some e) = record {
  landed_slot = and_then (member "slot" e) as_u64;
  confirmation_status = and_then (member "confirmation_status" e) as_str;
  signatures = signatures_of (and_then (member "transactions" e) as_array);
}

module _ (serde : Serde) where
  unfoldable pub parse_inflight_status : (body : Text) → String → Result BundleStatus
  unfolding entry_of
  parse_inflight_status body id = do
    v ← map_err decode_error (serde.from_str body)
    e ← entry_of "getInflightBundleStatuses" serde id v
    ok (status_of_entry e)

  unfoldable pub parse_bundle_detail : (body : Text) → String → Result Detail
  unfolding entry_of
  parse_bundle_detail body id = do
    v ← map_err decode_error (serde.from_str body)
    e ← entry_of "getBundleStatuses" serde id v
    ok (detail_of_entry e)

  -- The bodies are those of the responses, or the errors of the requests. The second request is made
  -- only for a landed bundle, and its failure is no failure of the poll.
  abbrev pub enrich : String → Result Text → BundleStatus → Detail
  enrich id detail_body landed = elim (detail_body >>= λ body. parse_bundle_detail body id) [
    | err e ↦ no_detail
    | ok d ↦ d
  ]
  enrich id detail_body invalid = no_detail
  enrich id detail_body pending = no_detail
  enrich id detail_body failed = no_detail
  enrich id detail_body (unknown s) = no_detail

  unfoldable pub poll_bundle_status :
      String → (inflight_body detail_body : Result Text) → Result BundleStatusReport
  unfolding parse_inflight_status parse_bundle_detail
  poll_bundle_status id inflight_body detail_body = do
    body ← inflight_body
    status ← parse_inflight_status body id
    ok (record { bundle_id = id; status = status; detail = enrich id detail_body status })
