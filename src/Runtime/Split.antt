-- ===== src/Runtime/Split.antt =====
-- Splitting a text where its parts do not have the separator.
use solana_smart_tx.Base.{ℕ, ◌≡◌, refl, ap, false, none, some, List, [], ◌∷◌, ◌++◌, arith}
use solana_smart_tx.Base.Tests.{nat_eq, ◌==◌}
use solana_smart_tx.Base.Lists.{contains, All}
use solana_smart_tx.Base.Text.{Text, starts_with}
use solana_smart_tx.Runtime.Redact.{
  split_once, first_into, rsplit_once, split, join, onto_first, separator, find_separator,
}

abbrev pub Lacks : ℕ → Text → Type 0
Lacks c s = contains c s ≡ false

Lacks-cons : (c d : ℕ) (s : Text) → Lacks c (d ∷ s) → ((d == c) ≡ false) × Lacks c s
unfolding contains
Lacks-cons c d s h = ground arith

pub Lacks-append : (c : ℕ) (l r : Text) → Lacks c l → Lacks c r → Lacks c (l ++ r)
unfolding contains
Lacks-append c [] r h k = k
Lacks-append c (d ∷ l) r h k =
    let (ne, rest) = Lacks-cons c d l h in ground (arith, Lacks-append c l r rest k)

pub split_once-found : (c : ℕ) (l r : Text) → Lacks c l → split_once c (l ++ c ∷ r) ≡ some (l, r)
unfolding split_once
split_once-found c [] r h = ground arith
split_once-found c (d ∷ l) r h =
    let (ne, rest) = Lacks-cons c d l h in rw ne (ap (first_into d) (split_once-found c l r rest))

pub split_once-lacking : (c : ℕ) (s : Text) → Lacks c s → split_once c s ≡ none
unfolding split_once
split_once-lacking c [] h = refl
split_once-lacking c (d ∷ s) h =
    let (ne, rest) = Lacks-cons c d s h in rw ne (ap (first_into d) (split_once-lacking c s rest))

pub rsplit_once-lacking : (c : ℕ) (s : Text) → Lacks c s → rsplit_once c s ≡ none
unfolding rsplit_once
rsplit_once-lacking c [] h = refl
rsplit_once-lacking c (d ∷ s) h =
    let (ne, rest) = Lacks-cons c d s h in rw (rsplit_once-lacking c s rest) (rw ne refl)

pub rsplit_once-found : (c : ℕ) (l r : Text) → Lacks c r → rsplit_once c (l ++ c ∷ r) ≡ some (l, r)
unfolding rsplit_once
rsplit_once-found c [] r h = rw (rsplit_once-lacking c r h) (ground arith)
rsplit_once-found c (d ∷ l) r h = rw (rsplit_once-found c l r h) refl

split-lacking : (c : ℕ) (s : Text) → Lacks c s → split c s ≡ s ∷ []
unfolding split
split-lacking c [] h = refl
split-lacking c (d ∷ s) h =
    let (ne, rest) = Lacks-cons c d s h in rw ne (ap (onto_first d) (split-lacking c s rest))

split-append : (c : ℕ) (l r : Text) → Lacks c l → split c (l ++ c ∷ r) ≡ l ∷ split c r
unfolding split
split-append c [] r h = ground arith
split-append c (d ∷ l) r h =
    let (ne, rest) = Lacks-cons c d l h in rw ne (ap (onto_first d) (split-append c l r rest))

-- Parts that are joined with a separator that none of them has.
pub split-join :
    (c : ℕ) (p : Text) (ps : List Text)
    → Lacks c p
    → All (Lacks c) ps
    → split c (join c (p ∷ ps)) ≡ p ∷ ps
unfolding join
split-join c p [] h all = split-lacking c p h
split-join c p (q ∷ ps) h (k, all) =
    rw (split-append c p (join c (q ∷ ps)) h) (ap (λ l. p ∷ l) (split-join c q ps k all))

not_start : (a : ℕ) (s : Text) → ((a == 58) ≡ false) → starts_with separator (a ∷ s) ≡ false
unfolding starts_with
not_start a s h = ground arith

pub find_separator-found :
    (scheme rest : Text)
    → Lacks 58 scheme
    → find_separator (scheme ++ separator ++ rest) ≡ some (scheme, rest)
unfolding find_separator starts_with
find_separator-found [] rest h = refl
find_separator-found (a ∷ l) rest h =
    let (ne, more) = Lacks-cons 58 a l h in
    rw (not_start a (l ++ separator ++ rest) ne)
      (ap (first_into a) (find_separator-found l rest more))
