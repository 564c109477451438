-- ===== src/Base/Result.antt =====
-- Results that fail with a message, as `anyhow::Result` does.
use mathlib.Core.Path.{◌≡◌, refl}
use mathlib.Core.Logic.{◌⊎◌, inl, inr}
use mathlib.Core.Bool.{Bool, true, false}
use solana_smart_tx.Base.Text.{Text}

pub data Result {ℓ} (A : Type ℓ) : Type ℓ where
  err : (message : Text) → Result A
  ok : A → Result A

infixl 5 ◌>>=◌
abbrev pub ◌>>=◌ {ℓ κ} : {A : Type ℓ} {B : Type κ} → Result A → (A → Result B) → Result B
err e >>= f = err e
ok a >>= f = f a

-- `map_err`.
abbrev pub map_err {ℓ} : {A : Type ℓ} → (Text → Text) → Result A → Result A
map_err f (err e) = err (f e)
map_err f (ok a) = ok a

-- What a chain that succeeds has come through.
pub bind_ok {ℓ κ} :
    {T : Type ℓ} {U : Type κ} (first : Result T) (next : T → Result U) {u : U}
    → (first >>= next) ≡ ok u
    → (t : T) × (next t ≡ ok u) × (first ≡ ok t)
bind_ok (ok t) next h = (t, h, refl)
bind_ok (err e) next h = cc

-- The result, unless the test fails: then the message.
abbrev pub ensure {ℓ} : {A : Type ℓ} → Bool → (message : Text) → Result A → Result A
ensure true e r = r
ensure false e r = err e

pub ensure_ok {ℓ} :
    {A : Type ℓ} (b : Bool) (e : Text) (r : Result A) {a : A}
    → ensure b e r ≡ ok a
    → (b ≡ true) × (r ≡ ok a)
ensure_ok true e r h = (refl, h)
ensure_ok false e r h = cc

pub Result-cases {ℓ} :
    {A : Type ℓ} (r : Result A) → ((e : Text) × (r ≡ err e)) ⊎ ((a : A) × (r ≡ ok a))
Result-cases (err e) = inl (e, refl)
Result-cases (ok a) = inr (a, refl)
