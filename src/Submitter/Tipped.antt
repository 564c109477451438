-- ===== src/Submitter/Tipped.antt =====
-- The bytes that are sent decode to the transfer of the tip that was asked for.
use solana_smart_tx.Base.{
  ℕ, zero, suc, ◌/◌, ◌^◌, ◌<◌, ◌≡◌, refl, ap, inl, inr, String, Bool, true, false, ◌||◌, Option,
  none, some, List, [], ◌∷◌, map, arith,
}
use solana_smart_tx.Base.Tests.{nat_eq, string_eq, leb, Bool-cases}
use solana_smart_tx.Base.Lists.{any}
use solana_smart_tx.Base.Text.{text_eq, text_beq}
use solana_smart_tx.Base.Result.{Result, err, ok, bind_ok}
use solana_smart_tx.Submitter.Sdk.{
  Instruction, Transaction, Sdk, le_bytes, from_le_bytes, Documented,
}
use solana_smart_tx.Submitter.Build.{Built, encode_tx, built, build_tip_tx}
use solana_smart_tx.Submitter.Decode.{
  jito_min_tip_lamports, DecodedTransfer, DecodedInstruction, DecodedBundleTx, decode_transfer,
  decoded, decode_tx, is_tip, tips, decode_bundle_tx, bundle_has_valid_tip,
}

from_le_bytes-le_bytes : (k n : ℕ) → n < 256 ^ k → from_le_bytes (le_bytes k n) ≡ n
unfolding from_le_bytes le_bytes
from_le_bytes-le_bytes zero n h = omega arith
from_le_bytes-le_bytes (suc k) n h =
    omega (arith, from_le_bytes-le_bytes k (n / 256) (smaller k n h))
  where
    smaller : (k n : ℕ) → n < 256 ^ suc k → n / 256 < 256 ^ k
    smaller k n h = omega arith

module _ (sdk : Sdk) (doc : Documented sdk) where
  decode_transfer-transfer :
      (from to : String) (n : ℕ)
      → n < 2 ^ 64
      → decode_transfer (sdk.transfer from to n)
        ≡ some (record { from = from; to = to; lamports = n })
  unfolding decode_transfer le_bytes text_beq
  decode_transfer-transfer from to n h =
      rw (doc.transfer_lem from to n)
        (ap some (ap (transfer_of from to) (from_le_bytes-le_bytes 8 n h)))
    where
      transfer_of : (from to : String) → ℕ → DecodedTransfer
      transfer_of from to n = record { from = from; to = to; lamports = n }

  decode-encoded :
      (tx : Transaction) (bytes : List ℕ) (text : String)
      → sdk.serialize tx ≡ ok bytes
      → sdk.base64_encode bytes ≡ text
      → decode_bundle_tx sdk text ≡ ok (decode_tx tx)
  unfolding decode_bundle_tx
  decode-encoded tx bytes text h e =
      rw (← e) (rw (doc.decode-encode tx bytes h) (rw (doc.deserialize-serialize tx bytes h)))

  encoding_of :
      (text signature bytes : String) (b : Built)
      → ◌≡◌ {A = Result Built} (ok (record { base64 = text; signature = signature })) (ok b)
      → ◌≡◌ {A = Result String} (ok bytes) (ok text)
      → bytes ≡ b.base64
  encoding_of text signature bytes b p q = ground arith

  -- The encoding of a new transaction decodes to its instructions.
  decode-built :
      (ixs : List Instruction) (blockhash : String) (b : Built)
      → built sdk (sdk.new_signed ixs blockhash) ≡ ok b
      → (d : DecodedBundleTx) × (decode_bundle_tx sdk b.base64 ≡ ok d)
        × (d.instructions ≡ map decoded ixs)
        × (d.recent_blockhash ≡ (sdk.new_signed ixs blockhash).recent_blockhash)
  unfolding encode_tx decode_tx
  decode-built ixs blockhash b h =
      let tx = sdk.new_signed ixs blockhash in
      let (text, e1, encoded) = bind_ok (encode_tx sdk tx) _ h in
      let (bytes, e2, serialized) = bind_ok (sdk.serialize tx) _ encoded in
      (
        decode_tx tx,
        decode-encoded tx bytes b.base64 serialized
            (encoding_of text tx.signature (sdk.base64_encode bytes) b e1 e2),
        ap (map decoded) (doc.compiled ixs blockhash),
        refl,
      )

  is_tip-minimum :
      (account payer : String) (n : ℕ) (t : Option DecodedTransfer)
      → leb jito_min_tip_lamports n ≡ false
      → is_tip account n payer t ≡ false
  is_tip-minimum account payer n none h = refl
  is_tip-minimum account payer n (some t) h = ground (arith, nat_eq.beq_iff t.lamports n)

  any-false :
      (account payer : String) (n : ℕ) (l : List DecodedInstruction)
      → leb jito_min_tip_lamports n ≡ false
      → any (λ ix. is_tip account n payer ix.transfer) l ≡ false
  any-false account payer n [] h = refl
  any-false account payer n (ix ∷ l) h =
      rw (is_tip-minimum account payer n ix.transfer h) (any-false account payer n l h)

  tips-minimum :
      (account payer : String) (n : ℕ) (r : Result DecodedBundleTx)
      → leb jito_min_tip_lamports n ≡ false
      → tips account n payer r ≡ false
  tips-minimum account payer n (err e) h = refl
  tips-minimum account payer n (ok d) h = any-false account payer n d.instructions h

  is_tip_self :
      (account payer : String) (n : ℕ)
      → is_tip account n payer (some (record { from = payer; to = account; lamports = n }))
        ≡ leb jito_min_tip_lamports n
  is_tip_self account payer n =
      ground (
        arith,
        string_eq.beq_iff payer payer,
        string_eq.beq_iff account account,
        nat_eq.beq_iff n n,
      )

  decoded-transfer :
      (account : String) (n : ℕ)
      → n < 2 ^ 64
      → (decoded (sdk.transfer sdk.payer account n)).transfer
        ≡ some (record { from = sdk.payer; to = account; lamports = n })
  unfolding decoded
  decoded-transfer account n h = decode_transfer-transfer sdk.payer account n h

  tips-build_tip_tx :
      (account blockhash : String) (n : ℕ) (b : Built)
      → n < 2 ^ 64
      → build_tip_tx sdk n account blockhash ≡ ok b
      → tips account n sdk.payer (decode_bundle_tx sdk b.base64) ≡ leb jito_min_tip_lamports n
  unfolding build_tip_tx
  tips-build_tip_tx account blockhash n b small h =
      let (d, e, instructions, same) =
        decode-built (sdk.transfer sdk.payer account n ∷ []) blockhash b h in
      rw e (
        rw instructions (
          rw (decoded-transfer account n small)
            (rw (is_tip_self account sdk.payer n) (or_false (leb jito_min_tip_lamports n)))))
    where
      or_false : (b : Bool) → (b || false) ≡ b
      or_false true = refl
      or_false false = refl

  pub valid_tip-built :
      (account blockhash first : String) (n : ℕ) (tip : Built)
      → n < 2 ^ 64
      → build_tip_tx sdk n account blockhash ≡ ok tip
      → bundle_has_valid_tip sdk (first ∷ tip.base64 ∷ []) account n sdk.payer
        ≡ leb jito_min_tip_lamports n
  unfolding bundle_has_valid_tip
  valid_tip-built account blockhash first n tip small h =
      elim (Bool-cases (leb jito_min_tip_lamports n)) [
        | inl e ↦
            rw (tips-build_tip_tx account blockhash n tip small h)
              (rw e (or_true (tips account n sdk.payer (decode_bundle_tx sdk first))))
        | inr e ↦
            rw (tips-minimum account sdk.payer n (decode_bundle_tx sdk first) e)
              (rw (tips-build_tip_tx account blockhash n tip small h) (rw e))
      ]
    where
      or_true : (b : Bool) → (b || (true || false)) ≡ true
      or_true true = refl
      or_true false = refl
