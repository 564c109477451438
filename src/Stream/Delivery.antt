-- ===== src/Stream/Delivery.antt =====
-- What is delivered, dropped and left of a sequence of updates, and of two such sequences.
use mathlib.Core.List.{append-nil, append_assoc}
use solana_smart_tx.Base.{ℕ, suc, ◌+◌, ◌≡◌, List, [], ◌∷◌, ◌++◌, arith}
use solana_smart_tx.Stream.Types.{SlotUpdate, TxStatusUpdate, StreamEvent, slot_event, tx_status}
use solana_smart_tx.Stream.Forward.{Update, slot_update, tx_update, other_update}

-- What was delivered, the counter, and the updates from the one on at which the consumer was gone.
pub record Delivery : Type 0 where
  pub events : List StreamEvent
  pub dropped_slots : ℕ
  pub left : List Update

-- The events are those of the updates, one for one and in their order, but for `k` dropped slots.
pub data Delivers : List Update → List StreamEvent → (k : ℕ) → Type 0 where
  nothing : Delivers [] [] 0
  slot_delivered :
      {l : List Update} {es : List StreamEvent} {k : ℕ} (s : SlotUpdate)
      → Delivers l es k
      → Delivers (slot_update s ∷ l) (slot_event s ∷ es) k
  slot_dropped :
      {l : List Update} {es : List StreamEvent} {k : ℕ} (s : SlotUpdate)
      → Delivers l es k
      → Delivers (slot_update s ∷ l) es (suc k)
  tx_delivered :
      {l : List Update} {es : List StreamEvent} {k : ℕ} (tx : TxStatusUpdate)
      → Delivers l es k
      → Delivers (tx_update tx ∷ l) (tx_status tx ∷ es) k
  no_event :
      {l : List Update} {es : List StreamEvent} {k : ℕ}
      → Delivers l es k
      → Delivers (other_update ∷ l) es k

-- The updates are some that were dealt with, and those left after them.
abbrev pub Accounts : List Update → ℕ → Delivery → Type 0
Accounts updates dropped d =
    (dealt : List Update) × (k : ℕ) × (updates ≡ dealt ++ d.left)
    × Delivers dealt d.events k
    × (d.dropped_slots ≡ dropped + k)

Delivers-append :
    {l r : List Update} {es fs : List StreamEvent} {k n : ℕ}
    → Delivers l es k
    → Delivers r fs n
    → Delivers (l ++ r) (es ++ fs) (k + n)
Delivers-append {n} nothing e = let z : 0 + n ≡ n = omega arith in rw z e
Delivers-append (slot_delivered s d) e = slot_delivered s (Delivers-append d e)
Delivers-append {n} (slot_dropped {k} s d) e =
    let z : suc k + n ≡ suc (k + n) = omega arith in rw z (slot_dropped s (Delivers-append d e))
Delivers-append (tx_delivered tx d) e = tx_delivered tx (Delivers-append d e)
Delivers-append (no_event d) e = no_event (Delivers-append d e)

-- Two runs, the second of which begins where the first one left nothing.
pub Accounts-append :
    (l r : List Update) (before : ℕ) (d d' : Delivery)
    → Accounts l before d
    → d.left ≡ []
    → Accounts r d.dropped_slots d'
    → Accounts (l ++ r) before (record {
      events = d.events ++ d'.events;
      dropped_slots = d'.dropped_slots;
      left = d'.left;
    })
Accounts-append l r before d d' (dealt, k, e, delivers, counted) none_left
      (dealt', n, e', delivers', counted') =
    (
      dealt ++ dealt',
      k + n,
      cc (append_assoc dealt dealt' d'.left, append-nil dealt, e, e', none_left),
      Delivers-append delivers delivers',
      omega (arith, counted, counted'),
    )
