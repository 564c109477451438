-- ===== src/Runtime/Spans.antt =====
-- The parts that the loop of `redact_url` cuts its text into.
use mathlib.Core.List.{reverse, reverse-cons, reverse-append, reverse-reverse}
use solana_smart_tx.Base.{
  ℕ, ◌<◌, ◌≡◌, refl, sym, ap, ◌∙◌, Bool, true, false, ◌&&◌, not, Option, none, some, [], ◌∷◌, ◌++◌,
  inl, inr, arith,
}
use solana_smart_tx.Base.Tests.{nat_eq, if◌then◌else◌, Bool-cases}
use solana_smart_tx.Base.Lists.{length, length-append, drop}
use solana_smart_tx.Base.Text.{Text, starts_with, is_whitespace}
use solana_smart_tx.Runtime.Redact.{all_chars, separator, find_separator, first_into}
use solana_smart_tx.Runtime.Scan.{span, span_end, is_scheme_char, ends_url, is_ascii, ends_in_ascii}

pub all_chars-append :
    (p : ℕ → Bool) (l r : Text) → all_chars p (l ++ r) ≡ (all_chars p l && all_chars p r)
unfolding all_chars
all_chars-append p [] r = refl
all_chars-append p (c ∷ l) r = ground (arith, all_chars-append p l r)

starts_lem :
    (c : ℕ) (s : Text) → starts_with separator (c ∷ s) ≡ true → c ∷ s ≡ separator ++ drop 3 (c ∷ s)
unfolding starts_with
starts_lem c [] h = ground arith
starts_lem c (d ∷ []) h = ground arith
starts_lem c (d ∷ e ∷ s) h =
    let first : c ≡ 58 = ground arith in
    let second : d ≡ 47 = ground arith in
    let third : e ≡ 47 = ground arith in λ i. first i ∷ second i ∷ third i ∷ s

-- What stands before and after the separator that is found.
abbrev pub Around : Text → Option (Text × Text) → Type 0
Around s none = Unit {0}
Around s (some (before, after)) = s ≡ before ++ separator ++ after

pub find_separator-Around : (s : Text) → Around s (find_separator s)
unfolding find_separator
find_separator-Around [] = tt
find_separator-Around (c ∷ s) = go (find_separator-Around s) (starts_with separator (c ∷ s)) refl
  where
    later : (o : Option (Text × Text)) → Around s o → Around (c ∷ s) (first_into c o)
    later none h = tt
    later (some (before, after)) h = ap (λ t. c ∷ t) h

    go :
        Around s (find_separator s)
        → (b : Bool) → starts_with separator (c ∷ s) ≡ b
        → Around (c ∷ s) (if b then some ([], drop 3 (c ∷ s)) else first_into c (find_separator s))
    go h true e = starts_lem c s e
    go h false e = later (find_separator s) h

pub span-append : (p : ℕ → Bool) (s : Text) → (span p s).0 ++ (span p s).1 ≡ s
unfolding span
span-append p [] = refl
span-append p (c ∷ s) = elim (Bool-cases (p c)) [
  | inl e ↦ rw e (ap (λ t. c ∷ t) (span-append p s))
  | inr e ↦ rw e refl
]

pub span-all_chars : (p : ℕ → Bool) (s : Text) → all_chars p (span p s).0 ≡ true
unfolding span all_chars
span-all_chars p [] = refl
span-all_chars p (c ∷ s) = elim (Bool-cases (p c)) [
  | inl e ↦ rw e (ground (arith, e, span-all_chars p s))
  | inr e ↦ rw e refl
]

all_chars-reverse : (p : ℕ → Bool) (s : Text) → all_chars p (reverse s) ≡ all_chars p s
unfolding all_chars
all_chars-reverse p [] = refl
all_chars-reverse p (c ∷ s) =
    rw (reverse-cons c s)
      (ground (arith, all_chars-append p (reverse s) (c ∷ []), all_chars-reverse p s))

pub span_end-append : (p : ℕ → Bool) (s : Text) → (span_end p s).0 ++ (span_end p s).1 ≡ s
unfolding span_end
span_end-append p s =
    sym (reverse-append (span p (reverse s)).0 (span p (reverse s)).1)
    ∙ ap reverse (span-append p (reverse s))
    ∙ reverse-reverse s

pub span_end-all_chars : (p : ℕ → Bool) (s : Text) → all_chars p (span_end p s).1 ≡ true
unfolding span_end
span_end-all_chars p s = all_chars-reverse p (span p (reverse s)).0 ∙ span-all_chars p (reverse s)

separator_lem : not (ends_url 58) ≡ true
unfolding is_whitespace
separator_lem = refl

pub length-span :
    (p : ℕ → Bool) (c : ℕ) (s : Text) → p c ≡ true → length (span p (c ∷ s)).1 < length (c ∷ s)
unfolding span
length-span p c s e =
    rw e (omega (arith, length-append (span p s).0 (span p s).1, ap length (span-append p s)))

scheme_lem : (c : ℕ) → is_scheme_char c ≡ true → not (ends_url c) ≡ true
unfolding is_whitespace
scheme_lem c h = ground arith

pub ends_in_ascii_lem : (s : Text) → all_chars is_ascii s ≡ true → ends_in_ascii s ≡ true
unfolding all_chars ends_in_ascii
ends_in_ascii_lem [] h = refl
ends_in_ascii_lem (c ∷ []) h = ground arith
ends_in_ascii_lem (c ∷ d ∷ s) h = ends_in_ascii_lem (d ∷ s) (ground arith)

-- A URL has its scheme or its separator at least.
pub length-remaining :
    (scheme after : Text)
    → all_chars is_scheme_char scheme ≡ true
    → length (span (λ c. not (ends_url c)) (scheme ++ separator ++ after)).1
      < length (scheme ++ separator ++ after)
unfolding all_chars
length-remaining [] after h = length-span (λ c. not (ends_url c)) 58 (47 ∷ 47 ∷ after) separator_lem
length-remaining (c ∷ l) after h =
    length-span (λ c. not (ends_url c)) c (l ++ separator ++ after) (scheme_lem c (ground arith))
