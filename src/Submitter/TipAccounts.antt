-- ===== src/Submitter/TipAccounts.antt =====
-- crates/submitter/src/lib.rs: the cached list of Jito's tip accounts. Times are milliseconds; the
-- fetch is given as what the request of `getTipAccounts` came to.
use solana_smart_tx.Base.{
  ℕ, ◌-◌, ◌*◌, ◌%◌, String, Bool, true, false, ◌&&◌, not, Option, none, some, List, [], ◌∷◌, ◌++◌,
}
use solana_smart_tx.Base.Tests.{nat_eq, ltb, leb, if◌then◌else◌}
use solana_smart_tx.Base.Lists.{length, get_elem?}
use solana_smart_tx.Base.Text.{Text, codes}
use solana_smart_tx.Base.Result.{Result, err, ok, ◌>>=◌, map_err, ensure}
use solana_smart_tx.Base.Json.{Serde, member, as_array, and_then, strings}
use solana_smart_tx.Submitter.Status.{decode_error}

abbrev pub tip_accounts_ttl : ℕ
tip_accounts_ttl = 300 * 1000

pub record TipAccountsCache : Type 0 where
  pub accounts : List String
  pub fetched_at : ℕ

abbrev pub ok_or {ℓ} : {A : Type ℓ} → Text → Option A → Result A
ok_or e none = err e
ok_or e (some a) = ok a

abbrev pub non_empty : List String → Result (List String)
non_empty [] = err (codes "getTipAccounts: empty result array")
non_empty (a ∷ l) = ok (a ∷ l)

-- `parse_tip_accounts`: entries that are no text are left out.
unfoldable pub parse_tip_accounts : Serde → (body : Text) → Result (List String)
parse_tip_accounts serde body = do
  v ← map_err decode_error (serde.from_str body)
  result ←
      ok_or (codes "getTipAccounts: missing 'result' array") (and_then (member "result" v) as_array)
  non_empty (strings result)

-- What came of a request: the status and the body, which may fail to be read.
pub record Response : Type 0 where
  pub status : ℕ
  pub wait_to_retry_ms : Option Text
  pub text : Result Text

abbrev pub is_success : ℕ → Bool
is_success status = leb 200 status && leb status 299

-- The status as text is not looked into.
abbrev http_error : (what : String) (status : ℕ → Text) → ℕ → Text → Text
http_error what show status text = codes what ++ codes " HTTP " ++ show status ++ codes ": " ++ text

module _ (serde : Serde) (show : ℕ → Text) where
  unfoldable pub fetch_tip_accounts : Result Response → Result (List String)
  unfolding parse_tip_accounts
  fetch_tip_accounts response = do
    r ← map_err (λ e. codes "error sending request: " ++ e) response
    text ← map_err decode_error r.text
    ensure (is_success r.status) (http_error "getTipAccounts" show r.status text)
        (parse_tip_accounts serde text)

-- `choose_account`, with the nanoseconds of the clock as the seed.
unfoldable pub choose_account : (seed : ℕ) → List String → Option String
choose_account seed [] = none
choose_account seed (a ∷ l) = get_elem? (a ∷ l) (seed % length (a ∷ l))

abbrev pub is_empty : List String → Bool
is_empty [] = true
is_empty (a ∷ l) = false

unfoldable pub cached_tip_account : (now seed : ℕ) → Option TipAccountsCache → Option String
unfolding choose_account
cached_tip_account now seed none = none
cached_tip_account now seed (some cache) =
    if ltb (now - cache.fetched_at) tip_accounts_ttl && not (is_empty cache.accounts)
    then choose_account seed cache.accounts
    else none

-- The account, the cache afterwards, and whether a request was made.
pub record Served : Type 0 where
  pub account : Result String
  pub cache : Option TipAccountsCache
  pub requested : Bool

abbrev pub choose_fetched : (seed : ℕ) → Result (List String) → Result String
choose_fetched seed fetched = do
  accounts ← fetched
  ok_or (codes "getTipAccounts returned no accounts") (choose_account seed accounts)

-- What a refresh at `later` leaves in the cache: a failure leaves it as it was.
abbrev pub refreshed :
    (later : ℕ) → Result (List String) → Option TipAccountsCache → Option TipAccountsCache
refreshed later (err e) cache = cache
refreshed later (ok accounts) cache = some (record { accounts = accounts; fetched_at = later })

abbrev pub serve :
    (later seed : ℕ) (fetched : Result (List String))
    → Option TipAccountsCache
    → Option String
    → Served
serve later seed fetched cache (some account) = record {
  account = ok account;
  cache = cache;
  requested = false;
}
serve later seed fetched cache none = record {
  account = choose_fetched seed fetched;
  cache = refreshed later fetched cache;
  requested = true;
}

module _ (serde : Serde) (show : ℕ → Text) where
  -- `refresh_tip_cache`, which is also all that `warm_tip_cache` does.
  unfoldable pub refresh_tip_cache :
      (later : ℕ)
      → Result Response
      → Option TipAccountsCache
      → Result (List String) × Option TipAccountsCache
  refresh_tip_cache later response cache =
      let fetched = fetch_tip_accounts serde show response in
      (fetched, refreshed later fetched cache)

  -- `later` is the time at which the response, if one is asked for, is stored.
  unfoldable pub random_tip_account :
      (now later seed : ℕ) → Result Response → Option TipAccountsCache → Served
  unfolding cached_tip_account
  random_tip_account now later seed response cache =
      serve later seed (fetch_tip_accounts serde show response) cache
        (cached_tip_account now seed cache)
