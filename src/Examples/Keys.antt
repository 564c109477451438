-- ===== src/Examples/Keys.antt =====
-- Messages whose keys are listed one after another.
use mathlib.Core.List.{append_assoc}
use mathlib.Core.Path.{ap₂}
use solana_smart_tx.Base.{
  ℕ, ◌+◌, ◌≡◌, refl, sym, ◌∙◌, String, some, List, [], ◌∷◌, ◌++◌, map, arith,
}
use solana_smart_tx.Base.Tests.{string_eq}
use solana_smart_tx.Base.Lists.{length, length-append, get_elem?}
use solana_smart_tx.Base.Text.{text_eq}
use solana_smart_tx.Submitter.Sdk.{Instruction, CompiledInstruction, resolve, resolve_instruction}

-- The indices from `n` on, one for each key.
unfoldable pub upto : ℕ → List String → List ℕ
upto n [] = []
upto n (k ∷ ks) = n ∷ upto (n + 1) ks

unfoldable pub compile : ℕ → List Instruction → List CompiledInstruction
unfolding upto
compile n [] = []
compile n (ix ∷ ixs) =
    record { program_id_index = n; account_indices = upto (n + 1) ix.accounts; bytes = ix.bytes }
    ∷ compile (n + 1 + length ix.accounts) ixs

unfoldable pub keys_of : List Instruction → List String
keys_of [] = []
keys_of (ix ∷ ixs) = (ix.program_id ∷ ix.accounts) ++ keys_of ixs

pub get_elem?-middle :
    (before : List String) (k : String) (after : List String)
    → get_elem? (before ++ k ∷ after) (length before) ≡ some k
get_elem?-middle [] k after = refl
get_elem?-middle (b ∷ before) k after = get_elem?-middle before k after

pub append_one :
    (before : List String) (k : String) (after : List String)
    → (before ++ k ∷ []) ++ after ≡ before ++ k ∷ after
append_one before k after = append_assoc before (k ∷ []) after

pub length-append_one :
    (before : List String) (k : String) → length (before ++ k ∷ []) ≡ length before + 1
length-append_one before k = omega (arith, length-append before (k ∷ []))

pub resolve_middle :
    (keys before : List String) (k : String) (after : List String) (n : ℕ)
    → keys ≡ before ++ k ∷ after
    → n ≡ length before
    → resolve keys n ≡ k
unfolding resolve
resolve_middle keys before k after n e l = rw e (rw l (rw (get_elem?-middle before k after)))

pub two_keys : {k j : String} {ks js : List String} → k ≡ j → ks ≡ js → k ∷ ks ≡ j ∷ js
two_keys p q = cc

pub resolve-upto :
    (keys before ks after : List String) (n : ℕ)
    → keys ≡ before ++ (ks ++ after)
    → n ≡ length before
    → map (resolve keys) (upto n ks) ≡ ks
unfolding upto
resolve-upto keys before [] after n e l = refl
resolve-upto keys before (k ∷ ks) after n e l =
    two_keys (resolve_middle keys before k (ks ++ after) n e l) (
      resolve-upto keys (before ++ k ∷ []) ks after (n + 1)
        (e ∙ sym (append_one before k (ks ++ after)))
        (omega (arith, l, length-append_one before k)))

pub resolved :
    (keys before after : List String) (ix : Instruction) (n : ℕ)
    → keys ≡ before ++ (ix.program_id ∷ (ix.accounts ++ after))
    → n ≡ length before
    → resolve_instruction keys (record {
      program_id_index = n;
      account_indices = upto (n + 1) ix.accounts;
      bytes = ix.bytes;
    })
      ≡ ix
resolved keys before after ix n e l =
    ap₂ (λ k ks. record { program_id = k; accounts = ks; bytes = ix.bytes })
      (resolve_middle keys before ix.program_id (ix.accounts ++ after) n e l)
      (resolve-upto keys (before ++ ix.program_id ∷ []) ix.accounts after (n + 1)
        (e ∙ sym (append_one before ix.program_id (ix.accounts ++ after)))
        (omega (arith, l, length-append_one before ix.program_id)))

pub compile-resolves :
    (keys before : List String) (ixs : List Instruction) (n : ℕ)
    → keys ≡ before ++ keys_of ixs
    → n ≡ length before
    → map (resolve_instruction keys) (compile n ixs) ≡ ixs
unfolding compile keys_of
compile-resolves keys before [] n e l = refl
compile-resolves keys before (ix ∷ ixs) n e l =
    ap₂ (λ (x : Instruction) xs. x ∷ xs) (resolved keys before (keys_of ixs) ix n e l)
      (compile-resolves keys (before ++ (ix.program_id ∷ ix.accounts)) ixs
        (n + 1 + length ix.accounts)
        (e ∙ sym (append_assoc before (ix.program_id ∷ ix.accounts) (keys_of ixs)))
        (omega (arith, l, length-append before (ix.program_id ∷ ix.accounts))))
