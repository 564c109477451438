-- ===== src/Examples/Prefetching.antt =====
-- A swap that is staged before its window opens.
use solana_smart_tx.Base.{◌≡◌, refl, Option, some, inr, arith}
use solana_smart_tx.Base.Text.{codes}
use solana_smart_tx.Base.Result.{err, ok}
use solana_smart_tx.Orchestrator.Policy.{swap}
use solana_smart_tx.Orchestrator.Payload.{PreFetchedSwap, payload_for}
use solana_smart_tx.Orchestrator.Prefetch.{prefetch_turn}
use solana_smart_tx.Orchestrator.Warm.{UsesStaged, prefetch_turn-UsesStaged}
use solana_smart_tx.Examples.Pipelining.{open_window, asked}

abbrev old : Option PreFetchedSwap
old = some (record { swap_tx_base64 = "AA=="; fetched_at_slot = 1900 })

restaged :
    prefetch_turn 2 (inr open_window) (ok "AQ==") old
    ≡ some (record { swap_tx_base64 = "AQ=="; fetched_at_slot = 2000 })
unfolding prefetch_turn
restaged = refl

prefetch_turn-UsesStaged_example :
    UsesStaged (prefetch_turn 2 (inr open_window) (ok "AQ==") old) asked (
      payload_for swap 2030
        (prefetch_turn 2 (inr open_window) (ok "AQ==") old)
        (err (codes "down"))
        asked)
prefetch_turn-UsesStaged_example =
    prefetch_turn-UsesStaged 2 2030 open_window "AQ==" old (err (codes "down")) asked (omega arith)
      (omega arith)
