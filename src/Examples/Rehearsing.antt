-- ===== src/Examples/Rehearsing.antt =====
-- A bundle that is simulated, a swap that is dry run, and an answer of the block engine.
use solana_smart_tx.Base.{◌≡◌, refl, String, none, some, [], ◌∷◌}
use solana_smart_tx.Base.Int.{pos}
use solana_smart_tx.Base.Text.{codes, trim}
use solana_smart_tx.Base.Result.{Result, ok}
use solana_smart_tx.Submitter.Sdk.{Sdk}
use solana_smart_tx.Submitter.Submit.{submit}
use solana_smart_tx.Submitter.Simulate.{SimulationResult, Messages, simulate_bundle}
use solana_smart_tx.Submitter.Rehearsed.{Rehearses, simulate_bundle-Rehearses}
use solana_smart_tx.Submitter.TipAccounts.{Response}
use solana_smart_tx.Submitter.Gateway.{digits, parse_u64, wait_hint, send_bundle}
use solana_smart_tx.Examples.Wire.{wire}
use solana_smart_tx.Examples.Bundles.{hi, serde, gateway, config, spec}

-- An RPC that runs every transaction.
abbrev clean : SimulationResult
clean = record { err = none; logs = []; units_consumed = some 300 }

abbrev simulate : String → Result SimulationResult
simulate tx = ok clean

simulate_bundle-Rehearses_example :
    Rehearses simulate spec
      (submit wire serde hi (λ n. "n") config gateway none spec 900 (pos 5000))
      (simulate_bundle wire simulate serde hi (λ n. "n") config gateway none spec)
simulate_bundle-Rehearses_example =
    simulate_bundle-Rehearses simulate wire serde hi (λ n. "n") config gateway spec none 900
      (pos 5000)

-- An SDK that signs every swap.
abbrev signing : Sdk
signing = record wire {
  deserialize_versioned = λ b. ok (record { signatures = "sig" ∷ []; message = b });
  try_new = λ message. ok (record { signatures = "sig" ∷ []; message = message });
  serialize_versioned = λ tx. ok (1 ∷ []);
}

abbrev messages : Messages
messages = record {
  version = λ m. "v0";
  static_account_keys = λ m. "wallet" ∷ [];
  recent_blockhash = λ m. "older";
  default_signature = "";
}

-- A 429 that asks for 5 s.
abbrev limited : Result Response
limited = ok (record {
  status = 429;
  wait_to_retry_ms = some (codes " 5000 ");
  text = ok (codes "slow down");
})

limited_sleeps : (send_bundle serde (λ n. codes "429") limited).slept_ms ≡ 2000
unfolding send_bundle wait_hint parse_u64 digits trim
limited_sleeps = refl
