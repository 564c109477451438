-- ===== src/Runtime/Urls.antt =====
-- What the redaction of a URL does to its parts.
use mathlib.Core.List.{append-nil}
use solana_smart_tx.Base.{ℕ, ◌≡◌, refl, ap, false, List, [], ◌∷◌, ◌++◌}
use solana_smart_tx.Base.Tests.{nat_eq, ◌==◌}
use solana_smart_tx.Base.Lists.{contains, All, All-map}
use solana_smart_tx.Base.Text.{Text}
use solana_smart_tx.Runtime.Redact.{
  mask_secret, split_once, join, looks_like_secret, all_chars, redact_segment, map_texts,
  redact_path, redact_pair, redact_query, redact_userinfo, separator, authority_and_path,
  redact_authority_and_path, redact_single_url,
}
use solana_smart_tx.Runtime.Split.{
  Lacks, Lacks-append, split_once-found, split_once-lacking, rsplit_once-found, rsplit_once-lacking,
  split-join, find_separator-found,
}
use solana_smart_tx.Runtime.Url.{
  Credentials, Url, print_authority, print_path, print_param, print_params, print_query, print_base,
  print_url, mask_credentials, mask_params, masked, PlainCredentials, PlainParam, Plain,
  no_credentials, token, user_password, PlainSegment,
}

redact_userinfo-printed :
    (c : Credentials) (host : Text)
    → PlainCredentials c
    → Lacks 64 host
    → redact_userinfo (print_authority c host) ≡ print_authority (mask_credentials c) host
unfolding redact_userinfo
redact_userinfo-printed no_credentials host p h = rw (rsplit_once-lacking 64 host h) refl
redact_userinfo-printed (token t) host (no_colon, no_slash, no_mark) h =
    rw (rsplit_once-found 64 t host h) (rw (split_once-lacking 58 t no_colon) refl)
redact_userinfo-printed (user_password user password) host ((no_colon, us, um), no_slash, no_mark)
      h =
    rw (rsplit_once-found 64 (user ++ 58 ∷ password) host h)
      (rw (split_once-found 58 user password no_colon) refl)

redact_segment-nil : redact_segment [] ≡ []
unfolding redact_segment looks_like_secret all_chars
redact_segment-nil = refl

redact_path-printed :
    (ss : List Text)
    → All (Lacks 47) ss
    → redact_path (print_path ss) ≡ print_path (map_texts redact_segment ss)
unfolding redact_path join
redact_path-printed [] all = refl
redact_path-printed (s ∷ ss) (h, all) =
    rw (split-join 47 s ss h all)
      (ap (λ t. t ++ 47 ∷ join 47 (map_texts redact_segment (s ∷ ss))) redact_segment-nil)

redact_pair-printed :
    (key value : Text)
    → Lacks 61 key
    → redact_pair (print_param (key, value)) ≡ print_param (key, mask_secret value)
unfolding redact_pair mask_secret
redact_pair-printed key [] h = rw (split_once-found 61 key [] h) refl
redact_pair-printed key (c ∷ value) h = rw (split_once-found 61 key (c ∷ value) h) refl

redact_pairs-printed :
    (ps : List (Text × Text))
    → All PlainParam ps
    → map_texts redact_pair (print_params ps) ≡ print_params (mask_params ps)
redact_pairs-printed [] all = refl
redact_pairs-printed ((key, value) ∷ ps) ((h, k, v), all) =
    rw (redact_pair-printed key value h)
      (ap (λ l. print_param (key, mask_secret value) ∷ l) (redact_pairs-printed ps all))

Lacks-param :
    (key value : Text) → Lacks 38 key → Lacks 38 value → Lacks 38 (print_param (key, value))
unfolding contains
Lacks-param key value h k = Lacks-append 38 key (61 ∷ value) h k

params-Lacks : (ps : List (Text × Text)) → All PlainParam ps → All (Lacks 38) (print_params ps)
params-Lacks [] all = tt
params-Lacks ((key, value) ∷ ps) ((h, k, v), all) = (Lacks-param key value k v, params-Lacks ps all)

redact_query-printed :
    (p : Text × Text) (ps : List (Text × Text))
    → All PlainParam (p ∷ ps)
    → redact_query (join 38 (print_params (p ∷ ps))) ≡ join 38 (print_params (mask_params (p ∷ ps)))
unfolding redact_query
redact_query-printed p ps all =
    let (first, rest) = params-Lacks (p ∷ ps) all in
    rw (split-join 38 (print_param p) (print_params ps) first rest)
      (ap (join 38) (redact_pairs-printed (p ∷ ps) all))

Lacks-join :
    (c sep : ℕ) (ps : List Text) → ((sep == c) ≡ false) → All (Lacks c) ps → Lacks c (join sep ps)
unfolding join contains
Lacks-join c sep [] ne all = refl
Lacks-join c sep (p ∷ []) ne (h, all) = h
Lacks-join c sep (p ∷ q ∷ ps) ne (h, all) =
    Lacks-append c p (sep ∷ join sep (q ∷ ps)) h (rw ne (Lacks-join c sep (q ∷ ps) ne all))

path-Lacks : (ss : List Text) → All (Lacks 63) ss → Lacks 63 (print_path ss)
unfolding contains
path-Lacks [] all = refl
path-Lacks (s ∷ ss) all = Lacks-join 63 47 (s ∷ ss) refl all

Lacks-around :
    (c sep : ℕ) (l r : Text) → ((sep == c) ≡ false) → Lacks c l → Lacks c r → Lacks c (l ++ sep ∷ r)
unfolding contains
Lacks-around c sep l r ne h k = Lacks-append c l (sep ∷ r) h (rw ne k)

-- An authority has no slash and no question mark.
slashless :
    (c : Credentials) (host : Text)
    → PlainCredentials c
    → Lacks 47 host
    → Lacks 47 (print_authority c host)
slashless no_credentials host p h = h
slashless (token t) host (no_colon, no_slash, no_mark) h = Lacks-around 47 64 t host refl no_slash h
slashless (user_password user password) host ((uc, us, um), no_slash, no_mark) h =
    Lacks-around 47 64 (user ++ 58 ∷ password) host refl
      (Lacks-around 47 58 user password refl us no_slash) h

markless :
    (c : Credentials) (host : Text)
    → PlainCredentials c
    → Lacks 63 host
    → Lacks 63 (print_authority c host)
markless no_credentials host p h = h
markless (token t) host (no_colon, no_slash, no_mark) h = Lacks-around 63 64 t host refl no_mark h
markless (user_password user password) host ((uc, us, um), no_slash, no_mark) h =
    Lacks-around 63 64 (user ++ 58 ∷ password) host refl
      (Lacks-around 63 58 user password refl um no_mark) h

-- The authority and the path.
authority_lem :
    (authority authority' : Text) (ss : List Text)
    → Lacks 47 authority
    → redact_userinfo authority ≡ authority'
    → All (Lacks 47) ss
    → authority_and_path (authority ++ print_path ss) (split_once 47 (authority ++ print_path ss))
      ≡ authority' ++ print_path (map_texts redact_segment ss)
unfolding redact_path
authority_lem authority authority' [] h e all =
    rw (append-nil authority) (rw (split_once-lacking 47 authority h) (ap (λ a. a ++ []) e))
authority_lem authority authority' (s ∷ ss) h e all =
    rw (split_once-found 47 authority (join 47 (s ∷ ss)) h)
      (rw e (ap (λ p. authority' ++ p) (redact_path-printed (s ∷ ss) all)))

separator-Lacks : Lacks 63 separator
unfolding contains
separator-Lacks = refl

module _ (u : Url) (plain : Plain u) where
  base_lem : redact_authority_and_path (print_base u) ≡ print_base (masked u)
  unfolding redact_authority_and_path
  base_lem =
      rw
        (find_separator-found u.scheme
          (print_authority u.credentials u.host ++ print_path u.segments) plain.scheme.0)
        (ap (λ r. u.scheme ++ separator ++ r)
          (authority_lem (print_authority u.credentials u.host)
            (print_authority (mask_credentials u.credentials) u.host) u.segments
            (slashless u.credentials u.host plain.credentials plain.host.1)
            (redact_userinfo-printed u.credentials u.host plain.credentials plain.host.0)
            (All-map PlainSegment (Lacks 47) u.segments (λ t p. p.0) plain.segments)))

  base-Lacks : Lacks 63 (print_base u)
  base-Lacks =
      Lacks-append 63 (u.scheme ++ separator)
        (print_authority u.credentials u.host ++ print_path u.segments)
        (Lacks-append 63 u.scheme separator plain.scheme.1 separator-Lacks)
        (Lacks-append 63 (print_authority u.credentials u.host) (print_path u.segments)
          (markless u.credentials u.host plain.credentials plain.host.2)
          (path-Lacks u.segments
            (All-map PlainSegment (Lacks 63) u.segments (λ t p. p.1) plain.segments)))

  query_lem :
      (ps : List (Text × Text))
      → All PlainParam ps
      → redact_single_url (print_query ps (print_base u))
        ≡ print_query (mask_params ps) (print_base (masked u))
  unfolding redact_single_url
  query_lem [] all = rw (split_once-lacking 63 (print_base u) base-Lacks) base_lem
  query_lem (p ∷ ps) all =
      rw (split_once-found 63 (print_base u) (join 38 (print_params (p ∷ ps))) base-Lacks)
        (rw base_lem (ap (λ q. print_base (masked u) ++ 63 ∷ q) (redact_query-printed p ps all)))

  -- The redaction of a URL whose parts do not have the characters that separate them prints the same
  -- URL with its secrets masked: a password becomes four stars, a bare token and each value of a
  -- query parameter keep at most their first four characters, as do the segments of the path that
  -- look like secrets; the scheme, the user, the host, the other segments and the keys stay.
  pub redact_single_url-masked : redact_single_url (print_url u) ≡ print_url (masked u)
  redact_single_url-masked = query_lem u.params plain.params
