-- ===== src/Submitter/Blockhash.antt =====
-- crates/submitter/src/lib.rs: `BlockhashCache` and `spawn_blockhash_refresher`, which keeps it fresh.
use solana_smart_tx.Base.{ℕ, String, Option, some, List, [], ◌∷◌}
use solana_smart_tx.Base.Result.{Result, err, ok}
use solana_smart_tx.Submitter.Submit.{CachedBlockhash}

-- What is under the lock; `get` reads it as it is.
abbrev pub BlockhashCache : Type 0
BlockhashCache = Option CachedBlockhash

abbrev pub store : (hash : String) (fetched_at_slot : ℕ) → BlockhashCache → BlockhashCache
store hash fetched_at_slot cache = some (record { hash = hash; fetched_at_slot = fetched_at_slot })

-- The RPC's reply, and the slot clock when it came.
pub record Refresh : Type 0 where
  pub reply : Result String
  pub slot : ℕ

abbrev pub refresh_turn : Result String → (slot : ℕ) → BlockhashCache → BlockhashCache
refresh_turn (err e) slot cache = cache
refresh_turn (ok hash) slot cache = store hash slot cache

-- The turns of the task, which ends only with the program.
unfoldable pub blockhash_refresher : List Refresh → BlockhashCache → BlockhashCache
blockhash_refresher [] cache = cache
blockhash_refresher (t ∷ ts) cache = blockhash_refresher ts (refresh_turn t.reply t.slot cache)
