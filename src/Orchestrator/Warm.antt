-- ===== src/Orchestrator/Warm.antt =====
-- What the prefetching of swaps gives the submission.
use solana_smart_tx.Base.{
  ℕ, ◌+◌, ◌-◌, ◌≤◌, ◌≡◌, refl, String, true, false, Option, none, some, inl, inr, arith,
}
use solana_smart_tx.Base.Tests.{leb, ltb, Bool-cases}
use solana_smart_tx.Base.Result.{Result, ok}
use solana_smart_tx.Leader.Types.{LeaderWindow}
use solana_smart_tx.Submitter.Types.{BundleSpec}
use solana_smart_tx.Orchestrator.Policy.{swap}
use solana_smart_tx.Orchestrator.Payload.{
  PreFetchedSwap, swap_prefetch_max_age_slots, fresh_swap, with_swap, payload_for,
}
use solana_smart_tx.Orchestrator.Prefetch.{
  swap_prefetch_refresh_slots, swap_prefetch_ahead_slots, refresh, prefetch_turn,
}

-- A swap is staged that was fetched at most 15 slots before `slot`.
abbrev pub Warm : (slot : ℕ) → Option PreFetchedSwap → Type 0
Warm slot none = ⊥
Warm slot (some pf) = slot ≤ pf.fetched_at_slot + swap_prefetch_refresh_slots

refresh-Warm :
    (w : LeaderWindow) (tx : String) (staged : Option PreFetchedSwap)
    → Warm w.current_slot (refresh w (ok tx) staged)
refresh-Warm w tx none = omega arith
refresh-Warm w tx (some pf) =
    elim (Bool-cases (ltb swap_prefetch_refresh_slots (w.current_slot - pf.fetched_at_slot))) [
      | inl e ↦ rw e (omega arith)
      | inr e ↦ rw e (ground arith)
    ]

turn-Warm :
    (lead : ℕ) (w : LeaderWindow) (tx : String) (staged : Option PreFetchedSwap)
    → w.slots_until ≤ lead + swap_prefetch_ahead_slots
    → Warm w.current_slot (prefetch_turn lead (inr w) (ok tx) staged)
unfolding prefetch_turn
turn-Warm lead w tx staged near =
    let no_wait : ltb (lead + swap_prefetch_ahead_slots) w.slots_until ≡ false = ground arith in
    rw no_wait (refresh-Warm w tx staged)

-- The payload is a staged swap.
abbrev pub UsesStaged : Option PreFetchedSwap → BundleSpec → Option BundleSpec → Type 0
UsesStaged staged spec sent =
    (pf : PreFetchedSwap) × (staged ≡ some pf) × (sent ≡ some (with_swap pf.swap_tx_base64 spec))

staged_lem :
    (slot later : ℕ) (staged : Option PreFetchedSwap) (fetched : Result String) (spec : BundleSpec)
    → Warm slot staged
    → later ≤ slot + 35
    → UsesStaged staged spec (payload_for swap later staged fetched spec)
unfolding payload_for fresh_swap
staged_lem slot later none fetched spec warm h = elim warm [ ]
staged_lem slot later (some pf) fetched spec warm h =
    let young : leb (later - pf.fetched_at_slot) swap_prefetch_max_age_slots ≡ true =
      ground arith in
    (pf, refl, rw young refl)

-- Once the prefetching has had a turn in a window that is at most `lead + 3` slots ahead, with Jupiter
-- answering if it was asked, a submission at any slot up to 35 later has a staged swap for its payload,
-- and needs no answer of Jupiter in the window.
pub prefetch_turn-UsesStaged :
    (lead later : ℕ) (w : LeaderWindow) (tx : String) (staged : Option PreFetchedSwap)
    (fetched : Result String) (spec : BundleSpec)
    → w.slots_until ≤ lead + swap_prefetch_ahead_slots
    → later ≤ w.current_slot + 35
    → UsesStaged
        (prefetch_turn lead (inr w) (ok tx) staged)
        spec
        (payload_for swap later (prefetch_turn lead (inr w) (ok tx) staged) fetched spec)
prefetch_turn-UsesStaged lead later w tx staged fetched spec near h =
    staged_lem w.current_slot later (prefetch_turn lead (inr w) (ok tx) staged) fetched spec
      (turn-Warm lead w tx staged near) h
