-- ===== src/Lifecycle/Progress.antt =====
-- What a step may do to a tracked bundle: move its stage on, and leave its submission alone.
use solana_smart_tx.Base.{
  ℕ, ◌≤◌, String, ◌≡◌, inl, inr, Option, none, some, List, [], ◌∷◌, ◌++◌, arith,
}
use solana_smart_tx.Base.Tests.{nat_eq, string_eq, ◌==◌, Bool-cases, Option-cases}
use solana_smart_tx.Base.Int.{ℤ}
use solana_smart_tx.Base.Map.{get, insert, remove, get-insert, get-remove}
use solana_smart_tx.Base.Text.{Text}
use solana_smart_tx.Failure.OnChain.{Deserialize}
use solana_smart_tx.Failure.Types.{Classification, on_chain_error}
use solana_smart_tx.Failure.Classify.{classify}
use solana_smart_tx.Stream.Types.{SlotStatus, TxStatusUpdate, StreamEvent, slot_event, tx_status}
use solana_smart_tx.Lifecycle.Types.{Pending, Inner, Write, rank, to_millis}
use solana_smart_tx.Lifecycle.Index.{drain_le}
use solana_smart_tx.Lifecycle.Machine.{
  to_processed, to_confirmed, forget, mark_processed, mark_confirmed, mark_finalized, fail_landed,
  mark_all, observe, apply_slot, apply_confirmed, apply_finalized, apply_landing, apply_tx,
  apply_event,
}
use solana_smart_tx.Lifecycle.Cases.{
  mark_processed_cases, mark_confirmed_cases, mark_finalized_cases, fail_landed_cases, forget_cases,
}

-- `q` is `p` later on: what was submitted is the same, and the stage has not gone back.
pub record Advances (p q : Pending) : Type 0 where
  pub same_signature : q.memo_signature ≡ p.memo_signature
  pub same_submitted_slot : q.submitted_slot ≡ p.submitted_slot
  pub same_blockhash_slot : q.blockhash_fetched_at_slot ≡ p.blockhash_fetched_at_slot
  pub same_submitted_at : q.submitted_at_ms ≡ p.submitted_at_ms
  pub same_tip : q.tip_lamports ≡ p.tip_lamports
  pub same_median : q.tip_p50 ≡ p.tip_p50
  pub same_upper : q.tip_p75 ≡ p.tip_p75
  pub stage_grows : rank p.state ≤ rank q.state

-- A bundle that is still tracked was tracked before, and has advanced.
abbrev pub Stems : Option Pending → Option Pending → Type 0
Stems before none = Unit {0}
Stems none (some q) = ⊥
Stems (some p) (some q) = Advances p q

Stems-refl : (o : Option Pending) → Stems o o
Stems-refl none = tt
Stems-refl (some p) = ground arith

Stems-trans : (a b c : Option Pending) → Stems a b → Stems b c → Stems a c
Stems-trans a b none h k = tt
Stems-trans a none (some r) h k = elim k [ ]
Stems-trans none (some q) (some r) h k = elim h [ ]
Stems-trans (some p) (some q) (some r) h k = ground arith

abbrev pub Onward : Inner → Inner → Type 0
Onward before after = (j : ℕ) → Stems (get j before.pending) (get j after.pending)

pub Onward-refl : (inner : Inner) → Onward inner inner
Onward-refl inner j = Stems-refl (get j inner.pending)

pub Onward-trans : (a b c : Inner) → Onward a b → Onward b c → Onward a c
Onward-trans a b c h k j =
    Stems-trans (get j a.pending) (get j b.pending) (get j c.pending) (h j) (k j)

Stems-of_eq : (o r : Option Pending) → o ≡ r → Stems o r
Stems-of_eq none none e = tt
Stems-of_eq (some p) none e = tt
Stems-of_eq none (some q) e = cc
Stems-of_eq (some p) (some q) e = ground arith

Stems-of_some :
    (o r : Option Pending) (p q : Pending) → o ≡ some p → r ≡ some q → Advances p q → Stems o r
Stems-of_some o none p q e f a = tt
Stems-of_some none (some r) p q e f a = cc
Stems-of_some (some o) (some r) p q e f a = ground arith

Stems-of_none : (o r : Option Pending) → r ≡ none → Stems o r
Stems-of_none o none e = tt
Stems-of_none none (some q) e = cc
Stems-of_none (some p) (some q) e = cc

module _ (inner : Inner) (id : ℕ) where
  pub insert-Onward :
      (p q : Pending)
      → get id inner.pending ≡ some p
      → Advances p q
      → (j : ℕ) → Stems (get j inner.pending) (get j (insert id q inner.pending))
  insert-Onward p q e a j = elim (Bool-cases (id == j)) [
    | inl same ↦
        Stems-of_some _ _ p q (ground arith) (ground (arith, get-insert id j q inner.pending)) a
    | inr other ↦ Stems-of_eq _ _ (ground (arith, get-insert id j q inner.pending))
  ]

  remove-Onward : (j : ℕ) → Stems (get j inner.pending) (get j (remove id inner.pending))
  remove-Onward j = elim (Bool-cases (id == j)) [
    | inl same ↦ Stems-of_none _ _ (ground (arith, get-remove id j inner.pending))
    | inr other ↦ Stems-of_eq _ _ (ground (arith, get-remove id j inner.pending))
  ]

  pub mark_processed-Onward :
      (slot : ℕ) (at : ℤ) (source : String)
      → Onward inner (mark_processed slot at source inner id).0
  mark_processed-Onward slot at source =
      mark_processed_cases inner id (λ r. Onward inner r.0) slot at source (λ _. Onward-refl inner)
        λ p e st. insert-Onward p (to_processed p slot at) e (ground arith)

  pub mark_confirmed-Onward :
      (at : ℤ) (source : String) → Onward inner (mark_confirmed at source inner id).0
  mark_confirmed-Onward at source =
      mark_confirmed_cases inner id (λ r. Onward inner r.0) at source (λ _. Onward-refl inner)
        λ p e st. insert-Onward p (to_confirmed p at) e (ground arith)

  pub mark_finalized-Onward :
      (at : ℤ) (source : String) → Onward inner (mark_finalized at source inner id).0
  mark_finalized-Onward at source =
      mark_finalized_cases inner id (λ r. Onward inner r.0) at source (λ _. Onward-refl inner)
        λ p e st. remove-Onward

  fail_landed-Onward :
      (c : Classification) (slot : ℕ) (at : ℤ) → Onward inner (fail_landed c slot at inner id).0
  fail_landed-Onward c slot at =
      fail_landed_cases inner id (λ r. Onward inner r.0) c slot at (λ _. Onward-refl inner)
        λ p e st. remove-Onward

  pub forget-Onward : Onward inner (forget inner id)
  forget-Onward = forget_cases inner id (Onward inner) (λ _. Onward-refl inner) λ p e. remove-Onward

pub mark_all-Onward :
    (mark : Inner → ℕ → Inner × Option Write)
    → ((inner : Inner) (id : ℕ) → Onward inner (mark inner id).0)
    → (ids : List ℕ) (inner : Inner) → Onward inner (mark_all mark inner ids).0
unfolding mark_all
mark_all-Onward mark step [] inner = Onward-refl inner
mark_all-Onward mark step (id ∷ ids) inner =
    Onward-trans inner (mark inner id).0 (mark_all mark (mark inner id).0 ids).0 (step inner id)
      (mark_all-Onward mark step ids (mark inner id).0)

apply_slot-Onward :
    (status : SlotStatus) (n : ℕ) (at : ℤ) (inner : Inner)
    → Onward inner (apply_slot status n at inner).0
unfolding apply_slot apply_confirmed apply_finalized
apply_slot-Onward SlotStatus.confirmed n at inner =
    mark_all-Onward (mark_confirmed at "stream") (λ i id. mark_confirmed-Onward i id at "stream")
      (drain_le n inner.confirm_index).0
      (record inner { confirm_index = (drain_le n inner.confirm_index).1 })
apply_slot-Onward SlotStatus.finalized n at inner =
    mark_all-Onward (mark_finalized at "stream") (λ i id. mark_finalized-Onward i id at "stream")
      ((drain_le n inner.finalize_index).0 ++ (drain_le n inner.confirm_index).0)
      (record inner {
        finalize_index = (drain_le n inner.finalize_index).1;
        confirm_index = (drain_le n inner.confirm_index).1;
      })
apply_slot-Onward _ n at inner = Onward-refl inner

module _ (deserialize : Deserialize) where
  apply_landing-Onward :
      (err : Option Text) (slot : ℕ) (at : ℤ) (inner : Inner) (id : ℕ)
      → Onward inner (apply_landing deserialize err slot at inner id).0
  unfolding apply_landing
  apply_landing-Onward none slot at inner id = mark_processed-Onward inner id slot at "stream"
  apply_landing-Onward (some hex) slot at inner id =
      fail_landed-Onward inner id (classify deserialize (on_chain_error hex slot)) slot at

  apply_tx-Onward :
      (tx : TxStatusUpdate) (inner : Inner) → Onward inner (apply_tx deserialize tx inner).0
  unfolding apply_tx
  apply_tx-Onward tx inner = elim (Option-cases (get tx.signature inner.by_sig)) [
    | inl e ↦ rw (e, apply_tx) (Onward-refl inner)
    | inr (id, e) ↦
        rw (e, apply_tx) (apply_landing-Onward tx.err tx.slot (to_millis tx.received_at) inner id)
  ]

  -- A stream event starts no bundle, never moves a stage back and never changes what was submitted:
  -- each bundle that is tracked afterwards was tracked before, with the same signature, slots, tip
  -- and percentiles, and at the same stage or an earlier one.
  pub apply_event-Onward :
      (event : StreamEvent) (inner : Inner) → Onward inner (apply_event deserialize inner event).0
  unfolding apply_event observe
  apply_event-Onward (slot_event s) inner =
      apply_slot-Onward s.status s.slot (to_millis s.received_at) (observe s.slot inner)
  apply_event-Onward (tx_status tx) inner = apply_tx-Onward tx inner
