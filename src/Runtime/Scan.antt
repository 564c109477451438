-- ===== src/Runtime/Scan.antt =====
-- crates/runtime/src/lib.rs: `redact_url`, which finds the URLs in a text. A slice at a byte that
-- is inside a character panics.
use solana_smart_tx.Base.{ℕ, zero, suc, Bool, true, ◌||◌, not, Option, none, some, [], ◌∷◌, ◌++◌}
use solana_smart_tx.Base.Tests.{nat_eq, ◌==◌, ltb, if◌then◌else◌}
use solana_smart_tx.Base.Lists.{length}
use solana_smart_tx.Base.Text.{Text, is_whitespace}
use mathlib.Core.List.{reverse}
use solana_smart_tx.Runtime.Redact.{
  is_ascii_alphanumeric, separator, find_separator, redact_single_url,
}

abbrev pub is_scheme_char : ℕ → Bool
is_scheme_char c = is_ascii_alphanumeric c || (c == 43 || (c == 45 || c == 46))

-- Whitespace, and the characters that wrap a URL.
abbrev pub ends_url : ℕ → Bool
ends_url c =
    is_whitespace c
    || (c == 34
        || (c == 39
            || (c == 60
                || (c == 62
                    || (c == 40
                        || (c == 41
                            || (c == 91
                                || (c == 93
                                    || (c == 123
                                        || (c == 125
                                            || (c == 124
                                                || (c == 92 || (c == 94 || c == 96)))))))))))))

-- The longest first part whose characters pass the test, and the rest.
unfoldable pub span : (ℕ → Bool) → Text → Text × Text
span p [] = ([], [])
span p (c ∷ s) = let (l, r) = span p s in if p c then (c ∷ l, r) else ([], c ∷ s)

-- The longest last part whose characters pass the test, and what is before it.
unfoldable pub span_end : (ℕ → Bool) → Text → Text × Text
unfolding span
span_end p s = let (l, r) = span p (reverse s) in (reverse r, reverse l)

abbrev pub is_ascii : ℕ → Bool
is_ascii c = ltb c 128

-- The byte after the last character of what is before the scheme, where that character has one byte.
unfoldable pub ends_in_ascii : Text → Bool
ends_in_ascii [] = true
ends_in_ascii (c ∷ []) = is_ascii c
ends_in_ascii (c ∷ d ∷ s) = ends_in_ascii (d ∷ s)

abbrev pub is_punctuation : ℕ → Bool
is_punctuation c = c == 46 || c == 44

pub data Outcome : Type 0 where
  redacted : Text → Outcome
  panicked out_of_fuel : Outcome

abbrev pub prefixed : Text → Outcome → Outcome
prefixed out (redacted s) = redacted (out ++ s)
prefixed out panicked = panicked
prefixed out out_of_fuel = out_of_fuel

-- One URL: its text without trailing punctuation is redacted.
unfoldable pub redact_run : Text → Text
unfolding redact_single_url span_end
redact_run raw =
    let (url, trailer) = span_end is_punctuation raw in redact_single_url url ++ trailer

-- One turn of the loop, given what stands before and after the next `://`, and the later turns.
abbrev pub turn : Text → Option (Text × Text) → (Text → Outcome) → Outcome
turn rest none later = redacted rest
turn rest (some (before, after)) later =
    let (text, scheme) = span_end is_scheme_char before in
    let (raw, remaining) = span (λ c. not (ends_url c)) (scheme ++ separator ++ after) in
    let continued = prefixed (text ++ redact_run raw) (later remaining) in
    if ends_in_ascii text then continued else panicked

unfoldable pub redact_from : (fuel : ℕ) → Text → Outcome
unfolding find_separator span span_end ends_in_ascii redact_run is_whitespace
redact_from zero rest = out_of_fuel
redact_from (suc fuel) rest = turn rest (find_separator rest) (redact_from fuel)

unfoldable pub redact_url : Text → Outcome
unfolding redact_from
redact_url input = redact_from (suc (length input)) input
