-- ===== src/Runtime/Redact.antt =====
-- crates/runtime/src/lib.rs: `mask_secret`, and what `redact_url` makes of one URL.
use solana_smart_tx.Base.{ℕ, Bool, true, ◌&&◌, ◌||◌, Option, none, some, List, [], ◌∷◌, ◌++◌}
use solana_smart_tx.Base.Tests.{nat_eq, ◌==◌, leb, if◌then◌else◌}
use solana_smart_tx.Base.Lists.{length, take, drop}
use solana_smart_tx.Base.Text.{Text, starts_with}

abbrev pub ellipsis : ℕ
ellipsis = 0x2026

unfoldable pub mask_secret : Text → Text
mask_secret secret =
    if length secret == 0
    then []
    else if leb (length secret) 4
    then ellipsis ∷ []
    else take 4 secret ++ ellipsis ∷ []

abbrev pub first_into : ℕ → Option (Text × Text) → Option (Text × Text)
first_into c none = none
first_into c (some (l, r)) = some (c ∷ l, r)

-- `str::split_once` at a character.
unfoldable pub split_once : ℕ → Text → Option (Text × Text)
split_once sep [] = none
split_once sep (c ∷ s) = if c == sep then some ([], s) else first_into c (split_once sep s)

abbrev pub last_or_first : ℕ → ℕ → Text → Option (Text × Text) → Option (Text × Text)
last_or_first sep c s none = if c == sep then some ([], s) else none
last_or_first sep c s (some (l, r)) = some (c ∷ l, r)

-- `str::rsplit_once`.
unfoldable pub rsplit_once : ℕ → Text → Option (Text × Text)
rsplit_once sep [] = none
rsplit_once sep (c ∷ s) = last_or_first sep c s (rsplit_once sep s)

abbrev pub onto_first : ℕ → List Text → List Text
onto_first c [] = (c ∷ []) ∷ []
onto_first c (p ∷ ps) = (c ∷ p) ∷ ps

-- `str::split` at a character, and `join` with it.
unfoldable pub split : ℕ → Text → List Text
split sep [] = [] ∷ []
split sep (c ∷ s) = let rest = split sep s in if c == sep then [] ∷ rest else onto_first c rest

unfoldable pub join : ℕ → List Text → Text
join sep [] = []
join sep (p ∷ []) = p
join sep (p ∷ q ∷ ps) = p ++ sep ∷ join sep (q ∷ ps)

abbrev pub is_ascii_alphanumeric : ℕ → Bool
is_ascii_alphanumeric c =
    (leb 48 c && leb c 57) || ((leb 65 c && leb c 90) || (leb 97 c && leb c 122))

abbrev pub is_token_char : ℕ → Bool
is_token_char c = is_ascii_alphanumeric c || (c == 45 || c == 95)

unfoldable pub all_chars : (ℕ → Bool) → Text → Bool
all_chars p [] = true
all_chars p (c ∷ s) = p c && all_chars p s

-- The length in bytes is that in characters where all are ASCII.
unfoldable pub looks_like_secret : Text → Bool
unfolding all_chars
looks_like_secret segment = leb 16 (length segment) && all_chars is_token_char segment

unfoldable pub redact_segment : Text → Text
unfolding looks_like_secret mask_secret
redact_segment seg = if looks_like_secret seg then mask_secret seg else seg

abbrev pub map_texts : (Text → Text) → List Text → List Text
map_texts f [] = []
map_texts f (p ∷ ps) = f p ∷ map_texts f ps

unfoldable pub redact_path : Text → Text
unfolding redact_segment split join
redact_path [] = []
redact_path (c ∷ s) = join 47 (map_texts redact_segment (split 47 (c ∷ s)))

abbrev pub redact_value : Text → Option (Text × Text) → Text
redact_value pair none = pair
redact_value pair (some (key, [])) = pair
redact_value pair (some (key, c ∷ value)) = key ++ 61 ∷ mask_secret (c ∷ value)

unfoldable pub redact_pair : Text → Text
unfolding mask_secret split_once
redact_pair pair = redact_value pair (split_once 61 pair)

unfoldable pub redact_query : Text → Text
unfolding redact_pair split join
redact_query query = join 38 (map_texts redact_pair (split 38 query))

abbrev pub four_stars : Text
four_stars = 42 ∷ 42 ∷ 42 ∷ 42 ∷ []

abbrev pub mask_user : Text → Option (Text × Text) → Text
mask_user userinfo (some (user, password)) = user ++ 58 ∷ four_stars
mask_user userinfo none = mask_secret userinfo

abbrev pub mask_userinfo : Text → Option (Text × Text) → Text
mask_userinfo authority (some (userinfo, host)) =
    mask_user userinfo (split_once 58 userinfo) ++ 64 ∷ host
mask_userinfo authority none = authority

unfoldable pub redact_userinfo : Text → Text
unfolding mask_secret split_once rsplit_once
redact_userinfo authority = mask_userinfo authority (rsplit_once 64 authority)

abbrev pub separator : Text
separator = 58 ∷ 47 ∷ 47 ∷ []

-- `find("://")`: what stands before it, and what after it.
unfoldable pub find_separator : Text → Option (Text × Text)
unfolding starts_with
find_separator [] = none
find_separator (c ∷ s) =
    if starts_with separator (c ∷ s)
    then some ([], drop 3 (c ∷ s))
    else first_into c (find_separator s)

-- The authority up to the first slash, and the path from it on.
abbrev pub authority_and_path : Text → Option (Text × Text) → Text
authority_and_path rest none = redact_userinfo rest ++ redact_path []
authority_and_path rest (some (authority, path)) =
    redact_userinfo authority ++ redact_path (47 ∷ path)

abbrev pub after_scheme : Text → Option (Text × Text) → Text
after_scheme s none = s
after_scheme s (some (scheme, rest)) =
    scheme ++ separator ++ authority_and_path rest (split_once 47 rest)

unfoldable pub redact_authority_and_path : Text → Text
unfolding redact_userinfo redact_path find_separator split_once
redact_authority_and_path s = after_scheme s (find_separator s)

abbrev pub with_query : Text → Option (Text × Text) → Text
with_query url none = redact_authority_and_path url
with_query url (some (base, query)) = redact_authority_and_path base ++ 63 ∷ redact_query query

unfoldable pub redact_single_url : Text → Text
unfolding redact_authority_and_path redact_query split_once
redact_single_url url = with_query url (split_once 63 url)
