-- ===== src/Failure/Hex.antt =====
-- Hex text: `hex_encode` of crates/stream/src/lib.rs, `to_hex` of crates/lifecycle/src/lib.rs and
-- `decode_hex` of crates/failure/src/lib.rs.
use solana_smart_tx.Base.{ℕ, ◌+◌, ◌-◌, ◌*◌, ◌/◌, ◌%◌, ◌&&◌, Option, none, some, List, [], ◌∷◌}
use solana_smart_tx.Base.Tests.{nat_eq, ltb, leb, if◌then◌else◌}
use solana_smart_tx.Base.Text.{Text, strip_prefix, trim}

abbrev pub hex_digit : ℕ → ℕ
hex_digit d = if ltb d 10 then d + 48 else d + 87

-- `{b:02x}` for each byte.
unfoldable pub to_hex : List ℕ → Text
to_hex [] = []
to_hex (b ∷ bs) = hex_digit (b / 16) ∷ hex_digit (b % 16) ∷ to_hex bs

-- `0x` and the digits.
unfoldable pub hex_encode : List ℕ → Text
hex_encode bs = 48 ∷ 120 ∷ to_hex bs

-- `char::to_digit(16)`, on the bytes of the text.
unfoldable pub to_digit : ℕ → Option ℕ
to_digit c =
    if leb 48 c && leb c 57
    then some (c - 48)
    else if leb 97 c && leb c 102
    then some (c - 87)
    else if leb 65 c && leb c 70
    then some (c - 55)
    else none

abbrev byte_of : Option ℕ → Option ℕ → Option (List ℕ) → Option (List ℕ)
byte_of (some hi) (some lo) (some bs) = some ((hi * 16 + lo) ∷ bs)
byte_of (some hi) (some lo) none = none
byte_of (some hi) none r = none
byte_of none l r = none

-- The loop over the digit pairs. A last digit without its partner cannot occur there, since the
-- length is tested first; `none` stands for that test's answer.
unfoldable pub decode_pairs : Text → Option (List ℕ)
unfolding to_digit
decode_pairs [] = some []
decode_pairs (c ∷ []) = none
decode_pairs (c ∷ d ∷ s) = byte_of (to_digit c) (to_digit d) (decode_pairs s)

-- `strip_prefix("0x")`, or else `strip_prefix("0X")`, or else the text.
unfoldable pub strip_0x : Text → Text
strip_0x s = elim (strip_prefix (48 ∷ 120 ∷ []) s) [
  | some rest ↦ rest
  | none ↦ elim (strip_prefix (48 ∷ 88 ∷ []) s) [ some rest ↦ rest | none ↦ s ]
]

abbrev pub nonempty_pairs : Text → Option (List ℕ)
nonempty_pairs [] = none
nonempty_pairs (c ∷ s) = decode_pairs (c ∷ s)

unfoldable pub decode_hex : Text → Option (List ℕ)
unfolding strip_0x decode_pairs
decode_hex s = nonempty_pairs (strip_0x (trim s))
