-- ===== src/Lifecycle/Machine.antt =====
-- crates/lifecycle/src/lib.rs: `apply_event` and the transitions that it makes in memory.
use Prim.Native.Nat.{max}
use solana_smart_tx.Base.{
  ℕ, String, Bool, true, false, ◌||◌, Option, none, some, List, [], ◌∷◌, ◌++◌,
}
use solana_smart_tx.Base.Tests.{nat_eq, string_eq, if◌then◌else◌}
use solana_smart_tx.Base.Int.{ℤ, ◌-ℤ◌, to_i64}
use solana_smart_tx.Base.Map.{get, insert, remove}
use solana_smart_tx.Base.Text.{Text}
use solana_smart_tx.Failure.Types.{Classification, on_chain_error, kind_label, confidence_label}
use solana_smart_tx.Failure.OnChain.{Deserialize}
use solana_smart_tx.Failure.Classify.{classify}
use solana_smart_tx.Stream.Types.{SlotStatus, TxStatusUpdate, StreamEvent, slot_event, tx_status}
use solana_smart_tx.Lifecycle.Types.{
  Stage, submitted, processed, confirmed, Pending, Index, Inner, Write, set_processed,
  set_confirmed, set_finalized, set_failed, to_millis,
}
use solana_smart_tx.Lifecycle.Index.{put, remove_id, drain_le}

abbrev pub is_submitted : Stage → Bool
is_submitted submitted = true
is_submitted _ = false

abbrev pub is_processed : Stage → Bool
is_processed processed = true
is_processed _ = false

abbrev pub is_confirmed : Stage → Bool
is_confirmed confirmed = true
is_confirmed _ = false

abbrev pub map_option {ℓ κ} : {A : Type ℓ} {B : Type κ} → (A → B) → Option A → Option B
map_option f none = none
map_option f (some a) = some (f a)

abbrev pub put_at : Option ℕ → ℕ → Index → Index
put_at none id ix = ix
put_at (some slot) id ix = put slot id ix

abbrev pub remove_at : Option ℕ → ℕ → Index → Index
remove_at none id ix = ix
remove_at (some slot) id ix = remove_id slot id ix

-- `forget`: the bundle leaves every index.
abbrev pub forgotten : Inner → ℕ → Pending → Inner
forgotten inner id p = record inner {
  by_sig = remove p.memo_signature inner.by_sig;
  pending = remove id inner.pending;
  confirm_index = remove_at p.landed_slot id inner.confirm_index;
  finalize_index = remove_at p.landed_slot id inner.finalize_index;
}

unfoldable pub forget : Inner → ℕ → Inner
forget inner id = elim (get id inner.pending) [ none ↦ inner | some p ↦ forgotten inner id p ]

unfoldable pub failed_write : ℕ → Classification → Option ℤ → Option ℤ → Option ℤ → ℤ → Write
failed_write id c landed_slot processed_at submit_to_process_ms failed_at =
    set_failed id (kind_label c.kind) (confidence_label c.confidence) c.rationale landed_slot
      processed_at submit_to_process_ms failed_at

abbrev pub to_processed : Pending → ℕ → ℤ → Pending
to_processed p slot at = record p {
  state = processed;
  processed_at_ms = some at;
  landed_slot = some slot;
}

abbrev pub to_confirmed : Pending → ℤ → Pending
to_confirmed p at = record p { state = confirmed; confirmed_at_ms = some at }

unfoldable pub mark_processed : ℕ → ℤ → String → Inner → ℕ → Inner × Option Write
mark_processed slot at source inner id = elim (get id inner.pending) [
  | none ↦ (inner, none)
  | some p ↦
      if is_submitted p.state
      then (
        record inner {
          pending = insert id (to_processed p slot at) inner.pending;
          confirm_index = put slot id inner.confirm_index;
        },
        some (set_processed id at (to_i64 slot) (some (at -ℤ p.submitted_at_ms)) source),
      )
      else (inner, none)
]

unfoldable pub mark_confirmed : ℤ → String → Inner → ℕ → Inner × Option Write
mark_confirmed at source inner id = elim (get id inner.pending) [
  | none ↦ (inner, none)
  | some p ↦
      if is_processed p.state
      then (
        record inner {
          pending = insert id (to_confirmed p at) inner.pending;
          finalize_index = put_at p.landed_slot id inner.finalize_index;
        },
        some (set_confirmed id at (map_option (λ x. at -ℤ x) p.processed_at_ms) source),
      )
      else (inner, none)
]

unfoldable pub mark_finalized : ℤ → String → Inner → ℕ → Inner × Option Write
unfolding forget
mark_finalized at source inner id = elim (get id inner.pending) [
  | none ↦ (inner, none)
  | some p ↦
      if is_processed p.state || is_confirmed p.state
      then (
        forget inner id,
        some (set_finalized id at (map_option (λ c. at -ℤ c) p.confirmed_at_ms) source),
      )
      else (inner, none)
]

unfoldable pub fail_landed : Classification → ℕ → ℤ → Inner → ℕ → Inner × Option Write
unfolding forget failed_write
fail_landed c slot at inner id = elim (get id inner.pending) [
  | none ↦ (inner, none)
  | some p ↦
      if is_submitted p.state || is_processed p.state
      then (
        forget inner id,
        some (failed_write id c (some (to_i64 slot)) (some at) (some (at -ℤ p.submitted_at_ms)) at),
      )
      else (inner, none)
]

abbrev pub opt_cons {ℓ} : {A : Type ℓ} → Option A → List A → List A
opt_cons none l = l
opt_cons (some a) l = a ∷ l

-- `ids.into_iter().filter_map(|id| mark(inner, id)).collect()`.
unfoldable pub mark_all : (Inner → ℕ → Inner × Option Write) → Inner → List ℕ → Inner × List Write
mark_all mark inner [] = (inner, [])
mark_all mark inner (id ∷ ids) =
    let (inner', w) = mark inner id in
    let (inner'', ws) = mark_all mark inner' ids in (inner'', opt_cons w ws)

abbrev one_write : Inner × Option Write → Inner × List Write
one_write (inner, w) = (inner, opt_cons w [])

unfoldable pub observe : ℕ → Inner → Inner
observe slot inner = record inner { last_observed_slot = max inner.last_observed_slot slot }

-- A confirmed slot N confirms what landed at or below N.
unfoldable pub apply_confirmed : ℕ → ℤ → Inner → Inner × List Write
apply_confirmed n at inner =
    let (ids, confirm') = drain_le n inner.confirm_index in
    mark_all (mark_confirmed at "stream") (record inner { confirm_index = confirm' }) ids

-- A finalized slot N finalizes what landed at or below N, confirmed or not.
unfoldable pub apply_finalized : ℕ → ℤ → Inner → Inner × List Write
apply_finalized n at inner =
    let (ids, finalize') = drain_le n inner.finalize_index in
    let (more, confirm') = drain_le n inner.confirm_index in
    mark_all (mark_finalized at "stream")
      (record inner { finalize_index = finalize'; confirm_index = confirm' }) (ids ++ more)

unfoldable pub apply_slot : SlotStatus → ℕ → ℤ → Inner → Inner × List Write
unfolding apply_confirmed apply_finalized
apply_slot SlotStatus.confirmed n at inner = apply_confirmed n at inner
apply_slot SlotStatus.finalized n at inner = apply_finalized n at inner
apply_slot _ n at inner = (inner, [])

module _ (deserialize : Deserialize) where
  unfoldable pub apply_landing : Option Text → ℕ → ℤ → Inner → ℕ → Inner × List Write
  apply_landing none slot at inner id = one_write (mark_processed slot at "stream" inner id)
  apply_landing (some hex) slot at inner id =
      one_write (fail_landed (classify deserialize (on_chain_error hex slot)) slot at inner id)

  unfoldable pub apply_tx : TxStatusUpdate → Inner → Inner × List Write
  unfolding apply_landing
  apply_tx tx inner = elim (get tx.signature inner.by_sig) [
    | none ↦ (inner, [])
    | some id ↦ apply_landing tx.err tx.slot (to_millis tx.received_at) inner id
  ]

  unfoldable pub apply_event : Inner → StreamEvent → Inner × List Write
  unfolding observe apply_slot apply_tx
  apply_event inner (slot_event s) =
      apply_slot s.status s.slot (to_millis s.received_at) (observe s.slot inner)
  apply_event inner (tx_status tx) = apply_tx tx inner
