-- ===== src/Base/Json.antt =====
-- `serde_json::Value` and the accessors of it that the program uses. Numbers that are no `u64` are
-- kept as their text. `Serde` is the parser and the printer, which lie outside the repository.
use solana_smart_tx.Base.{ℕ, String, Bool, Option, none, some, List, [], ◌∷◌}
use solana_smart_tx.Base.Tests.{string_eq, ◌==◌, if◌then◌else◌}
use solana_smart_tx.Base.Text.{Text}
use solana_smart_tx.Base.Result.{Result}

mutual
  pub data Value : Type 0 where
    null : Value
    bool : Bool → Value
    num : ℕ → Value
    other_num : Text → Value
    string : String → Value
    array : Items → Value
    object : Fields → Value

  pub data Items : Type 0 where
    nil : Items
    cons : Value → Items → Items

  pub data Fields : Type 0 where
    end : Fields
    field : String → Value → Fields → Fields

unfoldable pub find_field : String → Fields → Option Value
find_field key end = none
find_field key (field k v fs) = if k == key then some v else find_field key fs

-- `Value::get` with a key: only an object has fields.
unfoldable pub member : String → Value → Option Value
unfolding find_field
member key (object fs) = find_field key fs
member key _ = none

unfoldable pub items : Items → List Value
items nil = []
items (cons v vs) = v ∷ items vs

abbrev pub as_array : Value → Option (List Value)
unfolding items
as_array (array vs) = some (items vs)
as_array _ = none

abbrev pub as_str : Value → Option String
as_str (string s) = some s
as_str _ = none

abbrev pub as_u64 : Value → Option ℕ
as_u64 (num n) = some n
as_u64 _ = none

abbrev pub and_then {ℓ κ} : {A : Type ℓ} {B : Type κ} → Option A → (A → Option B) → Option B
and_then none f = none
and_then (some a) f = f a

-- The texts among some values: `filter_map` over `as_str`.
unfoldable pub strings : List Value → List String
strings [] = []
strings (string s ∷ vs) = s ∷ strings vs
strings (v ∷ vs) = strings vs

-- `serde_json::from_str`, and the compact printing of a value.
pub record Serde : Type 0 where
  pub from_str : Text → Result Value
  pub print : Value → Text
