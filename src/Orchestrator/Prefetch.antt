-- ===== src/Orchestrator/Prefetch.antt =====
-- crates/orchestrator/src/app.rs: the background task of swap mode that keeps a swap staged. What the
-- leader tracker and Jupiter answer is given with each turn.
use solana_smart_tx.Base.{ℕ, ◌+◌, ◌-◌, String, Bool, true, Option, none, some, ◌⊎◌, inl, inr}
use solana_smart_tx.Base.Tests.{ltb, if◌then◌else◌}
use solana_smart_tx.Base.Result.{Result, err, ok}
use solana_smart_tx.Leader.Types.{LeaderWindow, LeaderError}
use solana_smart_tx.Orchestrator.Payload.{PreFetchedSwap}

abbrev pub swap_prefetch_refresh_slots : ℕ
swap_prefetch_refresh_slots = 15

abbrev pub swap_prefetch_ahead_slots : ℕ
swap_prefetch_ahead_slots = 3

abbrev pub need_fetch : (current_slot : ℕ) → Option PreFetchedSwap → Bool
need_fetch current_slot none = true
need_fetch current_slot (some pf) =
    ltb swap_prefetch_refresh_slots (current_slot - pf.fetched_at_slot)

abbrev pub stage : (fetch_slot : ℕ) → Result String → Option PreFetchedSwap → Option PreFetchedSwap
stage fetch_slot (err e) staged = staged
stage fetch_slot (ok tx) staged =
    some (record { swap_tx_base64 = tx; fetched_at_slot = fetch_slot })

-- In a window that is near enough.
abbrev pub refresh : LeaderWindow → Result String → Option PreFetchedSwap → Option PreFetchedSwap
refresh window fetched staged =
    if need_fetch window.current_slot staged
    then stage window.current_slot fetched staged
    else staged

-- One turn of the loop. `lead` is the configured `swap_lead_slots`.
unfoldable pub prefetch_turn :
    (lead : ℕ)
    → LeaderError ⊎ LeaderWindow
    → Result String
    → Option PreFetchedSwap
    → Option PreFetchedSwap
prefetch_turn lead (inl e) fetched staged = staged
prefetch_turn lead (inr window) fetched staged =
    if ltb (lead + swap_prefetch_ahead_slots) window.slots_until
    then staged
    else refresh window fetched staged
