-- ===== src/Lifecycle/Preserved.antt =====
-- The transitions keep the memory's invariant.
use solana_smart_tx.Base.{ℕ, String, ◌≡◌, ◌⊎◌, some, List, ◌∷◌, arith}
use solana_smart_tx.Base.Tests.{nat_eq, string_eq}
use solana_smart_tx.Base.Int.{ℤ}
use solana_smart_tx.Base.Lists.{contains}
use solana_smart_tx.Base.Map.{get}
use solana_smart_tx.Failure.Types.{Classification}
use solana_smart_tx.Lifecycle.Types.{processed, confirmed, Pending, Inner}
use solana_smart_tx.Lifecycle.Machine.{
  mark_processed, mark_confirmed, mark_finalized, fail_landed, forget,
}
use solana_smart_tx.Lifecycle.Cases.{
  mark_processed_cases, mark_confirmed_cases, mark_finalized_cases, fail_landed_cases, forget_cases,
}
use solana_smart_tx.Lifecycle.Invariant.{
  InvBut, processed-InvBut, confirmed-InvBut, forgotten-InvBut,
}

-- An id that no longer has a confirmation to wait for leaves the list.
unconfirm-InvBut :
    (c f : List ℕ) (inner : Inner) (id : ℕ)
    → ((p : Pending) → get id inner.pending ≡ some p → ¬ (p.state ≡ processed))
    → InvBut (id ∷ c) f inner
    → InvBut c f inner
unfolding contains
unconfirm-InvBut c f inner id idle v = record {
  distinct = v.distinct;
  signatures = v.signatures;
  coherent = v.coherent;
  confirm_sound = v.confirm_sound;
  finalize_sound = v.finalize_sound;
  confirm_complete = λ s j q h t l. ground (arith, v.confirm_complete s j q, idle q);
  finalize_complete = v.finalize_complete;
}

unfinalize-InvBut :
    (c f : List ℕ) (inner : Inner) (id : ℕ)
    → ((p : Pending)
        → get id inner.pending ≡ some p
        → ¬ ((p.state ≡ processed) ⊎ (p.state ≡ confirmed)))
    → InvBut (id ∷ c) (id ∷ f) inner
    → InvBut c f inner
unfolding contains
unfinalize-InvBut c f inner id idle v = record {
  distinct = v.distinct;
  signatures = v.signatures;
  coherent = v.coherent;
  confirm_sound = v.confirm_sound;
  finalize_sound = v.finalize_sound;
  confirm_complete = λ s j q h t l. ground (arith, v.confirm_complete s j q, idle q);
  finalize_complete = λ s j q h t l. ground (arith, v.finalize_complete s j q, idle q);
}

pub InvBut-cons_confirm :
    (c f : List ℕ) (inner : Inner) (id : ℕ) → InvBut c f inner → InvBut (id ∷ c) f inner
unfolding contains
InvBut-cons_confirm c f inner id v = record {
  distinct = v.distinct;
  signatures = v.signatures;
  coherent = v.coherent;
  confirm_sound = v.confirm_sound;
  finalize_sound = v.finalize_sound;
  confirm_complete = λ s j q h t l. ground (arith, v.confirm_complete s j q h t l);
  finalize_complete = v.finalize_complete;
}

-- More may be waiting.
pub InvBut-cons :
    (c f : List ℕ) (inner : Inner) (id : ℕ) → InvBut c f inner → InvBut (id ∷ c) (id ∷ f) inner
unfolding contains
InvBut-cons c f inner id v = record {
  distinct = v.distinct;
  signatures = v.signatures;
  coherent = v.coherent;
  confirm_sound = v.confirm_sound;
  finalize_sound = v.finalize_sound;
  confirm_complete = λ s j q h t l. ground (arith, v.confirm_complete s j q h t l);
  finalize_complete = λ s j q h t l. ground (arith, v.finalize_complete s j q h t l);
}

module _ (c f : List ℕ) (inner : Inner) (id : ℕ) where
  pub mark_processed-InvBut :
      (slot : ℕ) (at : ℤ) (source : String)
      → InvBut c f inner
      → InvBut c f (mark_processed slot at source inner id).0
  mark_processed-InvBut slot at source v =
      mark_processed_cases inner id (λ r. InvBut c f r.0) slot at source (λ _. v)
        λ p e st. processed-InvBut c f inner id slot at p e st v

  pub mark_confirmed-InvBut :
      (at : ℤ) (source : String)
      → InvBut (id ∷ c) f inner
      → InvBut c f (mark_confirmed at source inner id).0
  mark_confirmed-InvBut at source v =
      mark_confirmed_cases inner id (λ r. InvBut c f r.0) at source
        (λ idle. unconfirm-InvBut c f inner id idle v)
        λ p e st. confirmed-InvBut c f inner id at p e st v

  pub mark_finalized-InvBut :
      (at : ℤ) (source : String)
      → InvBut (id ∷ c) (id ∷ f) inner
      → InvBut c f (mark_finalized at source inner id).0
  mark_finalized-InvBut at source v =
      mark_finalized_cases inner id (λ r. InvBut c f r.0) at source
        (λ idle. unfinalize-InvBut c f inner id idle v)
        λ p e st. forgotten-InvBut c f inner id p e v

  pub fail_landed-InvBut :
      (k : Classification) (slot : ℕ) (at : ℤ)
      → InvBut c f inner
      → InvBut c f (fail_landed k slot at inner id).0
  fail_landed-InvBut k slot at v =
      fail_landed_cases inner id (λ r. InvBut c f r.0) k slot at (λ _. v)
        λ p e st. forgotten-InvBut c f inner id p e (InvBut-cons c f inner id v)

  pub forget-InvBut : InvBut c f inner → InvBut c f (forget inner id)
  forget-InvBut v =
      forget_cases inner id (InvBut c f) (λ _. v)
        λ p e. forgotten-InvBut c f inner id p e (InvBut-cons c f inner id v)
