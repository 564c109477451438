-- ===== src/Submitter/Served.antt =====
-- Where the tip account of a submission comes from.
use solana_smart_tx.Base.{
  ℕ, zero, suc, ◌-◌, ◌%◌, ◌≤◌, ◌<◌, ◌≡◌, ◌≢◌, ◌⊎◌, refl, inl, inr, String, true, false, Option,
  none, some, List, [], ◌∷◌, ◌++◌, arith,
}
use solana_smart_tx.Base.Tests.{ltb, Bool-cases}
use solana_smart_tx.Base.Lists.{length, get_elem?}
use solana_smart_tx.Base.Text.{Text, codes}
use solana_smart_tx.Base.Result.{Result, err, ok, map_err, bind_ok, ensure_ok}
use solana_smart_tx.Base.Json.{Serde, member, as_array, and_then, strings}
use solana_smart_tx.Submitter.Status.{decode_error}
use solana_smart_tx.Submitter.TipAccounts.{
  tip_accounts_ttl, TipAccountsCache, ok_or, non_empty, parse_tip_accounts, Response, is_success,
  fetch_tip_accounts, serve, choose_account, cached_tip_account, Served, random_tip_account,
}

abbrev pub Has : String → List String → Type 0
Has a l = (i : ℕ) × (get_elem? l i ≡ some a)

get_elem?-lt : (l : List String) (i : ℕ) → i < length l → (a : String) × (get_elem? l i ≡ some a)
get_elem?-lt [] i h = absurd (omega arith)
get_elem?-lt (x ∷ l) zero h = (x, refl)
get_elem?-lt (x ∷ l) (suc i) h = get_elem?-lt l i (omega arith)

choose_account-Has :
    (seed : ℕ) (l : List String)
    → l ≢ []
    → (a : String) × (choose_account seed l ≡ some a) × Has a l
unfolding choose_account
choose_account-Has seed [] h = absurd (h refl)
choose_account-Has seed (x ∷ l) h =
    let (a, e) = get_elem?-lt (x ∷ l) (seed % length (x ∷ l)) (omega arith) in
    (a, e, (seed % length (x ∷ l), e))

non_empty-ne : (xs l : List String) → non_empty xs ≡ ok l → l ≢ []
non_empty-ne [] l h e = cc
non_empty-ne (x ∷ xs) l h e = cc

module _ (serde : Serde) (show : ℕ → Text) where
  parse_tip_accounts-ne :
      (text : Text) (l : List String) → parse_tip_accounts serde text ≡ ok l → l ≢ []
  unfolding parse_tip_accounts
  parse_tip_accounts-ne text l h =
      let (v, h1, p) = bind_ok (map_err decode_error (serde.from_str text)) _ h in
      let (r, h2, q) =
        bind_ok
          (ok_or (codes "getTipAccounts: missing 'result' array")
            (and_then (member "result" v) as_array))
          _ h1 in
      non_empty-ne (strings r) l h2

  fetch_tip_accounts-ne :
      (response : Result Response) (l : List String)
      → fetch_tip_accounts serde show response ≡ ok l
      → l ≢ []
  unfolding fetch_tip_accounts
  fetch_tip_accounts-ne response l h =
      let (r, h1, p) = bind_ok (map_err (λ e. codes "error sending request: " ++ e) response) _ h in
      let (text, h2, q) = bind_ok (map_err decode_error r.text) _ h1 in
      parse_tip_accounts-ne text l
        (ensure_ok (is_success r.status) _ (parse_tip_accounts serde text) h2).1

  abbrev Unusable : (now : ℕ) → Option TipAccountsCache → Type 0
  Unusable now none = Unit
  Unusable now (some c) = (tip_accounts_ttl ≤ now - c.fetched_at) ⊎ (c.accounts ≡ [])

  -- The account is from the cache, or was fetched, or could not be.
  pub data ServedBy (now later : ℕ) (response : Result Response) (cache : Option TipAccountsCache)
      (r : Served) : Type 0 where
    from_cache :
        (c : TipAccountsCache) (a : String)
        → cache ≡ some c
        → now - c.fetched_at < tip_accounts_ttl
        → Has a c.accounts
        → r ≡ record { account = ok a; cache = cache; requested = false }
        → ServedBy now later response cache r
    fetched :
        (l : List String) (a : String)
        → Unusable now cache
        → fetch_tip_accounts serde show response ≡ ok l
        → Has a l
        → r ≡ record {
          account = ok a;
          cache = some (record { accounts = l; fetched_at = later });
          requested = true;
        }
        → ServedBy now later response cache r
    failed :
        (e : Text)
        → Unusable now cache
        → fetch_tip_accounts serde show response ≡ err e
        → r ≡ record { account = err e; cache = cache; requested = true }
        → ServedBy now later response cache r

  Cached : (now : ℕ) → Option TipAccountsCache → Option String → Type 0
  Cached now cache none = Unusable now cache
  Cached now cache (some a) =
      (c : TipAccountsCache) × (cache ≡ some c)
      × (now - c.fetched_at < tip_accounts_ttl)
      × Has a c.accounts

  Cached-fresh :
      (now seed fetched_at : ℕ) (l : List String)
      → Cached now
          (some (record { accounts = l; fetched_at = fetched_at }))
          (cached_tip_account now seed (some (record { accounts = l; fetched_at = fetched_at })))
  unfolding cached_tip_account Cached
  Cached-fresh now seed at [] = elim (Bool-cases (ltb (now - at) tip_accounts_ttl)) [
    | inl e ↦ rw e (inr refl)
    | inr e ↦ rw e (inr refl)
  ]
  Cached-fresh now seed at (x ∷ l) = elim (Bool-cases (ltb (now - at) tip_accounts_ttl)) [
    | inl e ↦
        let (a, chosen, has) = choose_account-Has seed (x ∷ l) (λ h. cc) in
        rw (e, chosen) (record { accounts = x ∷ l; fetched_at = at }, refl, ground arith, has)
    | inr e ↦ rw e (inl (ground arith))
  ]

  cached_lem :
      (now seed : ℕ) (cache : Option TipAccountsCache)
      → Cached now cache (cached_tip_account now seed cache)
  unfolding cached_tip_account Cached
  cached_lem now seed none = tt
  cached_lem now seed (some c) = Cached-fresh now seed c.fetched_at c.accounts

  serve_fetched :
      (now later seed : ℕ) (response : Result Response) (cache : Option TipAccountsCache)
      (f : Result (List String))
      → fetch_tip_accounts serde show response ≡ f
      → Unusable now cache
      → ServedBy now later response cache (serve later seed f cache none)
  serve_fetched now later seed response cache (err e) h u = failed e u h refl
  serve_fetched now later seed response cache (ok l) h u =
      let (a, chosen, has) = choose_account-Has seed l (fetch_tip_accounts-ne response l h) in
      fetched l a u h has (rw chosen)

  serve_lem :
      (now later seed : ℕ) (response : Result Response) (cache : Option TipAccountsCache)
      (o : Option String)
      → Cached now cache o
      → ServedBy now later response cache
          (serve later seed (fetch_tip_accounts serde show response) cache o)
  unfolding Cached
  serve_lem now later seed response cache none u =
      serve_fetched now later seed response cache (fetch_tip_accounts serde show response) refl u
  serve_lem now later seed response cache (some a) (c, e, young, has) =
      from_cache c a e young has refl

  -- A submission gets its tip account from the cached list, with no request, exactly while that list
  -- is younger than its 300 s and not empty. Else it gets one of the list that it fetches, which
  -- replaces the cached one, or the error of that fetch, which leaves the cache as it was: a fetched
  -- list always has an account to choose.
  pub random_tip_account-ServedBy :
      (now later seed : ℕ) (response : Result Response) (cache : Option TipAccountsCache)
      → ServedBy now later response cache
          (random_tip_account serde show now later seed response cache)
  unfolding random_tip_account
  random_tip_account-ServedBy now later seed response cache =
      serve_lem now later seed response cache (cached_tip_account now seed cache)
        (cached_lem now seed cache)
