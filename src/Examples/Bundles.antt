-- ===== src/Examples/Bundles.antt =====
-- A bundle that is built, sent and polled.
use solana_smart_tx.Base.{ℕ, String, none, some, List, [], ◌∷◌}
use solana_smart_tx.Base.Tests.{nat_eq}
use solana_smart_tx.Base.Result.{err, ok}
use solana_smart_tx.Base.Json.{null, string, object, field, end, Serde}
use solana_smart_tx.Submitter.Types.{BundleSpec}
use solana_smart_tx.Submitter.Build.{Built}
use solana_smart_tx.Submitter.Submit.{Gateway, SubmitterConfig}
use solana_smart_tx.Submitter.TipAccounts.{Response}
use solana_smart_tx.Submitter.TipAccounts as Tip
use solana_smart_tx.Submitter.Served.{ServedBy, random_tip_account-ServedBy}

abbrev pub hi : String → List ℕ
hi memo = 104 ∷ 105 ∷ []

abbrev tip_built : Built
tip_built = record { base64 = "AQ=="; signature = "sig" }

abbrev memo_built : Built
memo_built = record { base64 = "Ag=="; signature = "sig" }

-- A block engine that accepts the bundle as "b1".
abbrev pub serde : Serde
serde = record { from_str = λ s. ok null; print = λ v. [] }

abbrev pub gateway : Gateway
gateway = record {
  latest_blockhash = λ finalized. ok "hash";
  random_tip_account = ok "tips";
  send_bundle = λ txs. ok (object (field "result" (string "b1") end));
}

abbrev pub config : SubmitterConfig
config = record { memo_prefix = "h"; self_transfer_lamports = 1 }

abbrev pub spec : BundleSpec
spec = record {
  tip_lamports = 5000;
  memo_text = "i";
  priority_fee_microlamports = 0;
  priority_fee_cu_limit = 0;
  swap_tx_base64 = none;
  fault = none;
}

-- A cached list of two accounts, 299 s old.
abbrev cache : Tip.TipAccountsCache
cache = record { accounts = "a" ∷ "b" ∷ []; fetched_at = 1000 }

random_tip_account-ServedBy_example :
    ServedBy serde
      (λ n. [])
      300_000
      300_050
      (err [])
      (some cache)
      (Tip.random_tip_account serde (λ n. []) 300_000 300_050 7 (err []) (some cache))
random_tip_account-ServedBy_example =
    random_tip_account-ServedBy serde (λ n. []) 300_000 300_050 7 (err []) (some cache)
