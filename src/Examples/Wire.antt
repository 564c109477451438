-- ===== src/Examples/Wire.antt =====
-- A small instance of what the submitter takes from the Solana crates, in which two transactions have
-- a wire form.
use mathlib.Core.Logic.{ite, if_pos, if_neg}
use native.Mathlib.Decide.{ℕ_discrete}
use solana_smart_tx.Base.{
  ℕ, zero, suc, ◌≡◌, ◌≢◌, refl, ap, inl, inr, true, String, List, [], ◌∷◌, arith,
}
use solana_smart_tx.Base.Tests.{string_eq, ◌==◌, if◌then◌else◌, Bool-cases}
use solana_smart_tx.Base.Lists.{length}
use solana_smart_tx.Base.Text.{text_eq, text_beq}
use solana_smart_tx.Base.Result.{Result, err, ok}
use solana_smart_tx.Submitter.Sdk.{
  Instruction, Transaction, Sdk, Documented, le_bytes, system_program_id,
}
use solana_smart_tx.Examples.Keys.{compile, keys_of, compile-resolves}

String-discrete : Discrete String
String-discrete s t = elim (Bool-cases (s == t)) [
  | inl e ↦ yes ((string_eq.beq_iff s t).0 e)
  | inr e ↦ no (λ p. let q : (s == t) ≡ true = (string_eq.beq_iff s t).1 p in cc)
]

pub Transaction-discrete : Discrete Transaction
Transaction-discrete = hlevel (ℕ_discrete, String-discrete)

-- The wallet's transactions: their signatures and blockhashes are texts made up here.
unfoldable pub wire_transfer : String → String → ℕ → Instruction
unfolding le_bytes
wire_transfer from to lamports = record {
  program_id = system_program_id;
  accounts = from ∷ to ∷ [];
  bytes = 2 ∷ 0 ∷ 0 ∷ 0 ∷ le_bytes 8 lamports;
}

unfoldable pub wire_signed : List Instruction → String → Transaction
unfolding compile keys_of
wire_signed ixs blockhash = record {
  signature = "sig";
  more_signatures = [];
  account_keys = keys_of ixs;
  recent_blockhash = blockhash;
  instructions = compile 0 ixs;
}

-- The two that have a wire form.
unfoldable pub tip_tx : Transaction
unfolding wire_signed
tip_tx = wire_signed (wire_transfer "wallet" "tips" 5000 ∷ []) "hash"

unfoldable pub memo_tx : Transaction
unfolding wire_signed
memo_tx =
    wire_signed
      (record {
        program_id = "MemoSq4gqABAXKb96qnH8TysNcWxMyWCqXgDLGmfcHr";
        accounts = [];
        bytes = 104 ∷ 105 ∷ [];
      }
        ∷ wire_transfer "wallet" "wallet" 1
        ∷ [])
      "hash"

unfoldable pub serialize_wire : Transaction → Result (List ℕ)
serialize_wire tx =
    ite (Transaction-discrete tx tip_tx) (ok (1 ∷ []))
      (ite (Transaction-discrete tx memo_tx) (ok (2 ∷ [])) (err []))

unfoldable pub deserialize_wire : List ℕ → Result Transaction
deserialize_wire (suc zero ∷ l) = ok tip_tx
deserialize_wire (suc (suc n) ∷ l) = ok memo_tx
deserialize_wire (zero ∷ l) = err []
deserialize_wire [] = err []

unfoldable pub encode_wire : List ℕ → String
encode_wire b = if b == 1 ∷ [] then "AQ==" else "Ag=="

unfoldable pub decode_wire : String → Result (List ℕ)
decode_wire s = if s == "AQ==" then ok (1 ∷ []) else ok (2 ∷ [])

abbrev pub wire : Sdk
wire = record {
  payer = "wallet";
  pubkey_from_str = λ s. ok s;
  transfer = wire_transfer;
  new_signed = wire_signed;
  serialize = serialize_wire;
  deserialize = deserialize_wire;
  deserialize_versioned = λ b. err [];
  try_new = λ b. err [];
  serialize_versioned = λ b. err [];
  base64_encode = encode_wire;
  base64_decode = decode_wire;
}

wire_forms :
    (tx : Transaction) (b : List ℕ)
    → serialize_wire tx ≡ ok b
    → (deserialize_wire b ≡ ok tx) × (decode_wire (encode_wire b) ≡ ok b)
unfolding serialize_wire deserialize_wire encode_wire decode_wire text_beq
wire_forms tx b h = elim (Transaction-discrete tx tip_tx) [
  | yes e ↦
      let k : ◌≡◌ {A = Result (List ℕ)} (ok (1 ∷ [])) (ok b) = rw (if_pos _ e) at h in
      let q : b ≡ 1 ∷ [] = ground arith in rw q (rw e (refl, refl))
  | no n ↦
      let rest : ite (Transaction-discrete tx memo_tx) (ok (2 ∷ [])) (err []) ≡ ok b =
        rw (if_neg _ n) at h in
      elim (Transaction-discrete tx memo_tx) [
        | yes e ↦
            let k : ◌≡◌ {A = Result (List ℕ)} (ok (2 ∷ [])) (ok b) = rw (if_pos _ e) at rest in
            let q : b ≡ 2 ∷ [] = ground arith in rw q (rw e (refl, refl))
        | no m ↦ let k : ◌≡◌ {A = Result (List ℕ)} (err []) (ok b) = rw (if_neg _ m) at rest in cc
      ]
]

pub wire-Documented : Documented wire
unfolding wire_transfer wire_signed compile
wire-Documented = record {
  transfer_lem = λ from to lamports. refl;
  compiled = λ ixs blockhash. compile-resolves (keys_of ixs) [] ixs 0 refl refl;
  deserialize-serialize = λ tx b h. (wire_forms tx b h).0;
  decode-encode = λ tx b h. (wire_forms tx b h).1;
}

pub tip_tx_wire : serialize_wire tip_tx ≡ ok (1 ∷ [])
unfolding serialize_wire
tip_tx_wire = rw (if_pos (Transaction-discrete tip_tx tip_tx) refl)

memo-ne-tip : memo_tx ≢ tip_tx
unfolding compile memo_tx tip_tx
memo-ne-tip e = let k : ◌≡◌ {A = ℕ} 2 1 = ap (λ (tx : Transaction). length tx.instructions) e in cc

pub memo_tx_wire : serialize_wire memo_tx ≡ ok (2 ∷ [])
unfolding serialize_wire
memo_tx_wire =
    rw (if_neg (Transaction-discrete memo_tx tip_tx) memo-ne-tip)
      (rw (if_pos (Transaction-discrete memo_tx memo_tx) refl))
