-- ===== src/Runtime/Total.antt =====
-- When `redact_url` returns.
use mathlib.Core.Path.{subst}
use mathlib.Core.List.{append_assoc}
use solana_smart_tx.Base.{
  ℕ, zero, suc, ◌<◌, ◌≡◌, ◌≢◌, refl, sym, ap, ◌∙◌, Bool, true, false, not, Option, none, some, ◌++◌,
  arith,
}
use solana_smart_tx.Base.Tests.{if◌then◌else◌}
use solana_smart_tx.Base.Lists.{length, length-append}
use solana_smart_tx.Base.Text.{Text}
use solana_smart_tx.Runtime.Redact.{all_chars, separator, find_separator}
use solana_smart_tx.Runtime.Scan.{
  redacted, span, span_end, is_scheme_char, ends_url, is_ascii, ends_in_ascii, Outcome, panicked,
  out_of_fuel, prefixed, turn, redact_from, redact_url,
}
use solana_smart_tx.Runtime.Spans.{
  all_chars-append, Around, find_separator-Around, span-append, span_end-append, span_end-all_chars,
  ends_in_ascii_lem, length-remaining,
}

abbrev pub Ascii : Text → Type 0
Ascii s = all_chars is_ascii s ≡ true

-- The fuel is enough, and an ASCII text is redacted.
abbrev pub Finishes : Text → Outcome → Type 0
Finishes s o = (o ≢ out_of_fuel) × (Ascii s → (out : Text) × (o ≡ redacted out))

Ascii-append : (l r : Text) → Ascii (l ++ r) → Ascii l × Ascii r
Ascii-append l r h =
    let split = all_chars-append is_ascii l r in
    (ground (arith, split, h), ground (arith, split, h))

prefixed-Finishes :
    (s r out : Text) (o : Outcome)
    → (Ascii s → Ascii r)
    → Finishes r o
    → Finishes s (prefixed out o)
prefixed-Finishes s r out (redacted t) sub h = ((λ e. cc), λ a. (out ++ t, refl))
prefixed-Finishes s r out panicked sub (h, total) =
    ((λ e. cc), λ a. let (t, e) = total (sub a) in cc)
prefixed-Finishes s r out out_of_fuel sub (h, total) = elim (h refl) [ ]

-- A turn that panics, or goes on.
checked-Finishes :
    (s text : Text) (b : Bool) (o : Outcome)
    → ends_in_ascii text ≡ b
    → (Ascii s → Ascii text)
    → Finishes s o
    → Finishes s (if b then o else panicked)
checked-Finishes s text true o e sub h = h
checked-Finishes s text false o e sub h =
    ((λ p. cc), λ a. let ascii = ends_in_ascii_lem text (sub a) in cc)

module _ (s before after : Text) (around : s ≡ before ++ separator ++ after) where
  abbrev text : Text
  text = (span_end is_scheme_char before).0

  abbrev region : Text
  region = (span_end is_scheme_char before).1 ++ separator ++ after

  abbrev remaining : Text
  remaining = (span (λ c. not (ends_url c)) region).1

  region_lem : s ≡ text ++ region
  region_lem =
      around
      ∙ ap (λ b. b ++ separator ++ after) (sym (span_end-append is_scheme_char before))
      ∙ ap (λ l. l ++ after) (append_assoc text (span_end is_scheme_char before).1 separator)
      ∙ append_assoc text ((span_end is_scheme_char before).1 ++ separator) after

  shorter : length remaining < length s
  shorter = omega (
    arith,
    length-remaining (span_end is_scheme_char before).1 after
        (span_end-all_chars is_scheme_char before),
    length-append text region,
    ap length region_lem,
  )

  text-Ascii : Ascii s → Ascii text
  text-Ascii a = (Ascii-append text region (subst Ascii region_lem a)).0

  remaining-Ascii : Ascii s → Ascii remaining
  remaining-Ascii a =
      (Ascii-append (span (λ c. not (ends_url c)) region).0 remaining (
        subst Ascii (sym (span-append (λ c. not (ends_url c)) region))
          (Ascii-append text region (subst Ascii region_lem a)).1)).1

turn-Finishes :
    (s : Text) (o : Option (Text × Text)) (later : Text → Outcome)
    → Around s o
    → ((r : Text) → length r < length s → Finishes r (later r))
    → Finishes s (turn s o later)
turn-Finishes s none later h f = ((λ e. cc), λ a. (s, refl))
turn-Finishes s (some (before, after)) later h f =
    checked-Finishes s (text s before after h) _ _ refl (text-Ascii s before after h) (
      prefixed-Finishes s (remaining s before after h) _ _ (remaining-Ascii s before after h)
        (f (remaining s before after h) (shorter s before after h)))

redact_from-Finishes : (fuel : ℕ) (s : Text) → length s < fuel → Finishes s (redact_from fuel s)
unfolding redact_from
redact_from-Finishes zero s h = let none_left : ⊥ = omega (arith, h) in elim none_left [ ]
redact_from-Finishes (suc fuel) s h =
    turn-Finishes s (find_separator s) (redact_from fuel) (find_separator-Around s)
      (λ r less. redact_from-Finishes fuel r (omega (arith, less, h)))

-- The loop of `redact_url` comes to an end on every text, and on a text of ASCII characters it does not
-- panic.
pub redact_url-Finishes :
    (s : Text)
    → (redact_url s ≢ out_of_fuel) × (Ascii s → (out : Text) × (redact_url s ≡ redacted out))
unfolding redact_url
redact_url-Finishes s = redact_from-Finishes (suc (length s)) s (omega arith)
