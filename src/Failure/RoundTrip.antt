-- ===== src/Failure/RoundTrip.antt =====
-- The hex text of an error, from the stream and from the reconcile pass, is decoded to its bytes.
use mathlib.Core.List.{reverse, reverse-cons, reverse-reverse}
use solana_smart_tx.Base.{ℕ, ◌/◌, ◌%◌, ◌<◌, ◌≤◌, ◌≡◌, ◌≢◌, refl, false, some, List, [], ◌∷◌, arith}
use solana_smart_tx.Base.Tests.{nat_eq}
use solana_smart_tx.Base.Lists.{All, All-append}
use solana_smart_tx.Base.Text.{Text, strip_prefix, is_whitespace, trim_start, trim_end, trim}
use solana_smart_tx.Failure.Hex.{
  hex_digit, to_hex, hex_encode, to_digit, decode_pairs, strip_0x, nonempty_pairs, decode_hex,
}

abbrev IsByte : ℕ → Type 0
IsByte b = b < 256

abbrev Printable : ℕ → Type 0
Printable c = (48 ≤ c) × (c ≤ 120)

Printable-not_whitespace : (c : ℕ) → Printable c → is_whitespace c ≡ false
unfolding is_whitespace
Printable-not_whitespace c h = ground arith

trim_start_lem : (s : Text) → All Printable s → trim_start s ≡ s
unfolding trim_start
trim_start_lem [] h = refl
trim_start_lem (c ∷ s) h = ground (arith, Printable-not_whitespace c h.0)

All-reverse : (s : Text) → All Printable s → All Printable (reverse s)
All-reverse [] h = tt
All-reverse (c ∷ s) h =
    rw (reverse-cons c s) (All-append Printable (reverse s) (c ∷ []) (All-reverse s h.1) (h.0, tt))

trim_lem : (s : Text) → All Printable s → trim s ≡ s
unfolding trim trim_end
trim_lem s h =
    rw (trim_start_lem s h, trim_start_lem (reverse s) (All-reverse s h)) (reverse-reverse s)

to_digit-hex_digit : (d : ℕ) → d < 16 → to_digit (hex_digit d) ≡ some d
unfolding to_digit
to_digit-hex_digit d h = ground arith

hex_digit-Printable : (d : ℕ) → d < 16 → Printable (hex_digit d)
hex_digit-Printable d h = ground arith

to_hex-Printable : (bs : List ℕ) → All IsByte bs → All Printable (to_hex bs)
unfolding to_hex
to_hex-Printable [] h = tt
to_hex-Printable (b ∷ bs) h = (
  hex_digit-Printable (b / 16) (omega arith),
  (hex_digit-Printable (b % 16) (omega arith), to_hex-Printable bs h.1),
)

decode_pairs-to_hex : (bs : List ℕ) → All IsByte bs → decode_pairs (to_hex bs) ≡ some bs
unfolding decode_pairs to_hex
decode_pairs-to_hex [] h = refl
decode_pairs-to_hex (b ∷ bs) h = ground (
  arith,
  to_digit-hex_digit (b / 16) (omega arith),
  to_digit-hex_digit (b % 16) (omega arith),
  decode_pairs-to_hex bs h.1,
)

-- The second digit of a byte is no `x`, so no prefix is taken off the digits.
strip_0x-to_hex : (bs : List ℕ) → All IsByte bs → strip_0x (to_hex bs) ≡ to_hex bs
unfolding strip_0x strip_prefix to_hex
strip_0x-to_hex [] h = refl
strip_0x-to_hex (b ∷ bs) h = ground arith

strip_0x-hex_encode : (bs : List ℕ) → strip_0x (hex_encode bs) ≡ to_hex bs
unfolding strip_0x strip_prefix hex_encode
strip_0x-hex_encode bs = refl

nonempty_pairs-to_hex :
    (bs : List ℕ) → bs ≢ [] → All IsByte bs → nonempty_pairs (to_hex bs) ≡ some bs
unfolding to_hex
nonempty_pairs-to_hex [] ne h = absurd (ne refl)
nonempty_pairs-to_hex (b ∷ bs) ne h = decode_pairs-to_hex (b ∷ bs) h

-- The classifier decodes both hex forms of a non-empty error payload to its bytes: the one of the
-- stream, with `0x`, and the one of the reconcile pass, without.
pub decode_hex-encoded :
    (bs : List ℕ)
    → bs ≢ []
    → All IsByte bs
    → (decode_hex (hex_encode bs) ≡ some bs) × (decode_hex (to_hex bs) ≡ some bs)
unfolding decode_hex
decode_hex-encoded bs ne h = (
  rw
      (
        trim_lem (hex_encode bs)
            (unfold hex_encode in (omega arith, (omega arith, to_hex-Printable bs h))),
        strip_0x-hex_encode bs,
      )
      (nonempty_pairs-to_hex bs ne h),
  rw (trim_lem (to_hex bs) (to_hex-Printable bs h), strip_0x-to_hex bs h)
      (nonempty_pairs-to_hex bs ne h),
)
