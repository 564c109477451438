-- ===== src/Runtime/Url.antt =====
-- A URL by its parts, the text it is printed as, and its secrets masked.
use solana_smart_tx.Base.{List, [], ◌∷◌, ◌++◌}
use solana_smart_tx.Base.Tests.{nat_eq}
use solana_smart_tx.Base.Lists.{All}
use solana_smart_tx.Base.Text.{Text}
use solana_smart_tx.Runtime.Redact.{
  mask_secret, join, redact_segment, map_texts, four_stars, separator,
}
use solana_smart_tx.Runtime.Split.{Lacks}

pub data Credentials : Type 0 where
  no_credentials : Credentials
  token : Text → Credentials
  user_password : (user password : Text) → Credentials

pub record Url : Type 0 where
  pub scheme : Text
  pub credentials : Credentials
  pub host : Text
  pub segments : List Text
  pub params : List (Text × Text)

abbrev pub print_authority : Credentials → Text → Text
print_authority no_credentials host = host
print_authority (token t) host = t ++ 64 ∷ host
print_authority (user_password user password) host = (user ++ 58 ∷ password) ++ 64 ∷ host

-- Each segment after a slash.
abbrev pub print_path : List Text → Text
print_path [] = []
print_path (s ∷ ss) = 47 ∷ join 47 (s ∷ ss)

abbrev pub print_param : Text × Text → Text
print_param (key, value) = key ++ 61 ∷ value

abbrev pub print_params : List (Text × Text) → List Text
print_params [] = []
print_params (p ∷ ps) = print_param p ∷ print_params ps

abbrev pub print_query : List (Text × Text) → Text → Text
print_query [] base = base
print_query (p ∷ ps) base = base ++ 63 ∷ join 38 (print_params (p ∷ ps))

abbrev pub print_base : Url → Text
print_base u =
    u.scheme ++ separator ++ (print_authority u.credentials u.host ++ print_path u.segments)

abbrev pub print_url : Url → Text
print_url u = print_query u.params (print_base u)

abbrev pub mask_credentials : Credentials → Credentials
mask_credentials no_credentials = no_credentials
mask_credentials (token t) = token (mask_secret t)
mask_credentials (user_password user password) = user_password user four_stars

abbrev pub mask_params : List (Text × Text) → List (Text × Text)
mask_params [] = []
mask_params ((key, value) ∷ ps) = (key, mask_secret value) ∷ mask_params ps

-- The same URL with its secrets masked.
abbrev pub masked : Url → Url
masked u = record u {
  credentials = mask_credentials u.credentials;
  segments = map_texts redact_segment u.segments;
  params = mask_params u.params;
}

abbrev pub PlainCredentials : Credentials → Type 0
PlainCredentials no_credentials = Unit {0}
PlainCredentials (token t) = Lacks 58 t × Lacks 47 t × Lacks 63 t
PlainCredentials (user_password user password) =
    (Lacks 58 user × Lacks 47 user × Lacks 63 user) × Lacks 47 password × Lacks 63 password

abbrev pub PlainSegment : Text → Type 0
PlainSegment s = Lacks 47 s × Lacks 63 s

abbrev pub PlainParam : Text × Text → Type 0
PlainParam (key, value) = Lacks 61 key × Lacks 38 key × Lacks 38 value

-- No part has a character that separates it from the next.
pub record Plain (u : Url) : Type 0 where
  pub scheme : Lacks 58 u.scheme × Lacks 63 u.scheme
  pub credentials : PlainCredentials u.credentials
  pub host : Lacks 64 u.host × Lacks 47 u.host × Lacks 63 u.host
  pub segments : All PlainSegment u.segments
  pub params : All PlainParam u.params
