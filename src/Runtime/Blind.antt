-- ===== src/Runtime/Blind.antt =====
-- The redaction of a URL does not see its secrets.
use solana_smart_tx.Base.{
  ◌<◌, ◌≡◌, refl, sym, ap, ◌∙◌, true, List, [], ◌∷◌, ◌++◌, ◌⊎◌, inl, inr, arith,
}
use solana_smart_tx.Base.Tests.{nat_eq}
use solana_smart_tx.Base.Lists.{length, take}
use solana_smart_tx.Base.Text.{Text}
use solana_smart_tx.Runtime.Redact.{
  ellipsis, mask_secret, looks_like_secret, redact_segment, map_texts, four_stars,
  redact_single_url,
}
use solana_smart_tx.Runtime.Url.{
  Credentials, no_credentials, token, user_password, Url, print_url, masked, mask_credentials,
  mask_params, Plain,
}
use solana_smart_tx.Runtime.Urls.{redact_single_url-masked}

-- Two texts that agree in their first four characters, each of them longer.
abbrev pub SameHead : Text → Text → Type 0
SameHead a b = (4 < length a) × (4 < length b) × (take 4 a ≡ take 4 b)

abbrev pub AlikeText : Text → Text → Type 0
AlikeText a b = (a ≡ b) ⊎ SameHead a b

abbrev pub AlikeSegment : Text → Text → Type 0
AlikeSegment a b =
    (a ≡ b) ⊎ ((looks_like_secret a ≡ true) × (looks_like_secret b ≡ true) × SameHead a b)

abbrev pub AlikeSegments : List Text → List Text → Type 0
AlikeSegments [] [] = Unit {0}
AlikeSegments [] (b ∷ bs) = ⊥
AlikeSegments (a ∷ more) [] = ⊥
AlikeSegments (a ∷ more) (b ∷ bs) = AlikeSegment a b × AlikeSegments more bs

abbrev pub AlikeParams : List (Text × Text) → List (Text × Text) → Type 0
AlikeParams [] [] = Unit {0}
AlikeParams [] (b ∷ bs) = ⊥
AlikeParams (a ∷ more) [] = ⊥
AlikeParams ((key, value) ∷ more) ((key', value') ∷ bs) =
    (key ≡ key') × AlikeText value value' × AlikeParams more bs

abbrev pub AlikeCredentials : Credentials → Credentials → Type 0
AlikeCredentials no_credentials no_credentials = Unit {0}
AlikeCredentials no_credentials (token t) = ⊥
AlikeCredentials no_credentials (user_password u p) = ⊥
AlikeCredentials (token t) no_credentials = ⊥
AlikeCredentials (token t) (token t') = AlikeText t t'
AlikeCredentials (token t) (user_password u p) = ⊥
AlikeCredentials (user_password u p) no_credentials = ⊥
AlikeCredentials (user_password u p) (token t) = ⊥
AlikeCredentials (user_password u p) (user_password u' p') = u ≡ u'

-- Two URLs that differ in their secrets only.
pub record Alike (u u' : Url) : Type 0 where
  pub scheme : u.scheme ≡ u'.scheme
  pub credentials : AlikeCredentials u.credentials u'.credentials
  pub host : u.host ≡ u'.host
  pub segments : AlikeSegments u.segments u'.segments
  pub params : AlikeParams u.params u'.params

mask_long : (a : Text) → 4 < length a → mask_secret a ≡ take 4 a ++ ellipsis ∷ []
unfolding mask_secret
mask_long a h = ground arith

mask_alike : (a b : Text) → AlikeText a b → mask_secret a ≡ mask_secret b
mask_alike a b (inl e) = ap mask_secret e
mask_alike a b (inr (long, long', e)) =
    mask_long a long ∙ ap (λ t. t ++ ellipsis ∷ []) e ∙ sym (mask_long b long')

segment_alike : (a b : Text) → AlikeSegment a b → redact_segment a ≡ redact_segment b
unfolding redact_segment
segment_alike a b (inl e) = ap redact_segment e
segment_alike a b (inr (secret, secret', head)) = rw secret (rw secret' (mask_alike a b (inr head)))

segments_alike :
    (l r : List Text) → AlikeSegments l r → map_texts redact_segment l ≡ map_texts redact_segment r
segments_alike [] [] h = refl
segments_alike [] (b ∷ r) h = elim h [ ]
segments_alike (a ∷ l) [] h = elim h [ ]
segments_alike (a ∷ l) (b ∷ r) (h, more) =
    ap (λ s. s ∷ map_texts redact_segment l) (segment_alike a b h)
    ∙ ap (λ s. redact_segment b ∷ s) (segments_alike l r more)

params_alike : (l r : List (Text × Text)) → AlikeParams l r → mask_params l ≡ mask_params r
params_alike [] [] h = refl
params_alike [] (b ∷ r) h = elim h [ ]
params_alike ((key, value) ∷ l) [] h = elim h [ ]
params_alike ((key, value) ∷ l) ((key', value') ∷ r) (e, h, more) =
    let values = mask_alike value value' h in
    let rest = params_alike l r more in λ i. (e i, values i) ∷ rest i

credentials_alike :
    (c d : Credentials) → AlikeCredentials c d → mask_credentials c ≡ mask_credentials d
credentials_alike no_credentials no_credentials h = refl
credentials_alike no_credentials (token t') h = elim h [ ]
credentials_alike no_credentials (user_password u' p') h = elim h [ ]
credentials_alike (token t) no_credentials h = elim h [ ]
credentials_alike (token t) (user_password u' p') h = elim h [ ]
credentials_alike (user_password u p) no_credentials h = elim h [ ]
credentials_alike (user_password u p) (token t') h = elim h [ ]
credentials_alike (token t) (token t') h = ap token (mask_alike t t' h)
credentials_alike (user_password u p) (user_password u' p') h =
    ap (λ v. user_password v four_stars) h

-- What is printed for a URL does not depend on its password, nor on the characters after the first
-- four of a bare token, of a value of a query parameter, or of a segment of the path that looks like a
-- secret, if these are longer than that: two such URLs are printed alike, where their parts do not
-- have the characters that separate them.
pub redact_single_url-Alike :
    (u u' : Url)
    → Plain u
    → Plain u'
    → Alike u u'
    → redact_single_url (print_url u) ≡ redact_single_url (print_url u')
redact_single_url-Alike u u' plain plain' alike =
    redact_single_url-masked u plain
    ∙ ap print_url masked_lem
    ∙ sym (redact_single_url-masked u' plain')
  where
    masked_lem : masked u ≡ masked u'
    masked_lem =
        let credentials = credentials_alike u.credentials u'.credentials alike.credentials in
        let segments = segments_alike u.segments u'.segments alike.segments in
        let params = params_alike u.params u'.params alike.params in
        λ i. record {
          scheme = alike.scheme i;
          credentials = credentials i;
          host = alike.host i;
          segments = segments i;
          params = params i;
        }
