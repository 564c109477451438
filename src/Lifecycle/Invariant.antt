-- ===== src/Lifecycle/Invariant.antt =====
-- The invariant of the tracker's memory, and that the transitions keep it.
use solana_smart_tx.Base.{
  ℕ, String, ◌≡◌, ◌≢◌, refl, ◌↔◌, Bool, true, false, ◌&&◌, ◌||◌, Option, none, some, List, [], ◌∷◌,
  arith,
}
use solana_smart_tx.Base.Tests.{nat_eq, string_eq, ◌==◌, if◌then◌else◌}
use solana_smart_tx.Base.Int.{ℤ}
use solana_smart_tx.Base.Lists.{contains}
use solana_smart_tx.Base.Map.{
  get, insert, remove, Distinct, get-insert, get-remove, insert-Distinct, remove-Distinct,
}
use solana_smart_tx.Lifecycle.Types.{
  Stage, submitted, processed, confirmed, finalized, failed, Pending, Index, Inner,
}
use solana_smart_tx.Lifecycle.Index.{holds, put, holds-put, holds-remove_id}
use solana_smart_tx.Lifecycle.Machine.{
  map_option, put_at, remove_at, forgotten, to_processed, to_confirmed,
}

-- The slot and the stamps that a bundle of each stage has.
abbrev Stamped : Stage → Option ℕ → Option ℤ → Option ℤ → Type 0
Stamped submitted landed processed_at confirmed_at =
    (landed ≡ none) × (processed_at ≡ none) × (confirmed_at ≡ none)
Stamped processed landed processed_at confirmed_at =
    (landed ≢ none) × (processed_at ≢ none) × (confirmed_at ≡ none)
Stamped confirmed landed processed_at confirmed_at =
    (landed ≢ none) × (processed_at ≢ none) × (confirmed_at ≢ none)
Stamped finalized landed processed_at confirmed_at = ⊥
Stamped failed landed processed_at confirmed_at = ⊥

abbrev pub Coherent : Pending → Type 0
Coherent p = Stamped p.state p.landed_slot p.processed_at_ms p.confirmed_at_ms

abbrev pub landing : Option Pending → Option ℕ
landing none = none
landing (some p) = p.landed_slot

-- What holds of the memory while the ids of `c` still wait to be confirmed and those of `f` to be
-- finalized. Between two operations both lists are empty.
pub record InvBut (c f : List ℕ) (inner : Inner) : Type 0 where
  pub distinct : Distinct inner.pending
  pub signatures :
      (sig : String) (id : ℕ)
      → (get sig inner.by_sig ≡ some id)
        ↔ (map_option (λ (p : Pending). p.memo_signature) (get id inner.pending) ≡ some sig)
  pub coherent : (id : ℕ) (p : Pending) → get id inner.pending ≡ some p → Coherent p
  pub confirm_sound :
      (s id : ℕ) → holds s id inner.confirm_index ≡ true → landing (get id inner.pending) ≡ some s
  pub finalize_sound :
      (s id : ℕ) → holds s id inner.finalize_index ≡ true → landing (get id inner.pending) ≡ some s
  pub confirm_complete :
      (s id : ℕ) (p : Pending)
      → get id inner.pending ≡ some p
      → p.state ≡ processed
      → p.landed_slot ≡ some s
      → (holds s id inner.confirm_index || contains id c) ≡ true
  pub finalize_complete :
      (s id : ℕ) (p : Pending)
      → get id inner.pending ≡ some p
      → p.state ≡ confirmed
      → p.landed_slot ≡ some s
      → (holds s id inner.finalize_index || contains id f) ≡ true

abbrev pub Inv : Inner → Type 0
Inv = InvBut [] []

-- A tracked bundle in a new record with the same signature keeps the signature index right.
module _ (inner : Inner) (id : ℕ) (p q : Pending) (e : get id inner.pending ≡ some p) where
  pub signatures-insert :
      q.memo_signature ≡ p.memo_signature
      → (sig : String) (j : ℕ)
      → map_option (λ (r : Pending). r.memo_signature) (get j (insert id q inner.pending))
        ≡ map_option (λ (r : Pending). r.memo_signature) (get j inner.pending)
  signatures-insert same sig j = ground (arith, get-insert id j q inner.pending)

-- Whether a landing is at the slot `s`.
abbrev at_slot : Option ℕ → ℕ → Bool
at_slot none s = false
at_slot (some slot) s = slot == s

holds-put_at :
    (l : Option ℕ) (id s i : ℕ) (ix : Index)
    → holds s i (put_at l id ix) ≡ ((at_slot l s && id == i) || holds s i ix)
holds-put_at none id s i ix = refl
holds-put_at (some slot) id s i ix = holds-put slot id s i ix

holds-remove_at :
    (l : Option ℕ) (id s i : ℕ) (ix : Index)
    → holds s i (remove_at l id ix) ≡ (if at_slot l s && id == i then false else holds s i ix)
holds-remove_at none id s i ix = refl
holds-remove_at (some slot) id s i ix = holds-remove_id slot id s i ix

pub processed-InvBut :
    (c f : List ℕ) (inner : Inner) (id slot : ℕ) (at : ℤ) (p : Pending)
    → get id inner.pending ≡ some p
    → p.state ≡ submitted
    → InvBut c f inner
    → InvBut c f (record inner {
      pending = insert id (to_processed p slot at) inner.pending;
      confirm_index = put slot id inner.confirm_index;
    })
processed-InvBut c f inner id slot at p e st v = record {
  distinct = insert-Distinct id _ inner.pending v.distinct;
  signatures = λ sig j.
      rw (signatures-insert inner id p (to_processed p slot at) e refl sig j) (v.signatures sig j);
  coherent = λ j q h. ground (
    arith,
    get-insert id j (to_processed p slot at) inner.pending,
    v.coherent id p e,
    v.coherent j q,
  );
  confirm_sound = λ s j h. ground (
    arith,
    get-insert id j (to_processed p slot at) inner.pending,
    holds-put slot id s j inner.confirm_index,
    v.coherent id p e,
    v.confirm_sound s j,
  );
  finalize_sound = λ s j h. ground (
    arith,
    get-insert id j (to_processed p slot at) inner.pending,
    v.coherent id p e,
    v.finalize_sound s j h,
  );
  confirm_complete = λ s j q h t l. ground (
    arith,
    get-insert id j (to_processed p slot at) inner.pending,
    holds-put slot id s j inner.confirm_index,
    v.confirm_complete s j q,
  );
  finalize_complete = λ s j q h t l.
      ground
        (arith, get-insert id j (to_processed p slot at) inner.pending, v.finalize_complete s j q);
}

pub confirmed-InvBut :
    (c f : List ℕ) (inner : Inner) (id : ℕ) (at : ℤ) (p : Pending)
    → get id inner.pending ≡ some p
    → p.state ≡ processed
    → InvBut (id ∷ c) f inner
    → InvBut c f (record inner {
      pending = insert id (to_confirmed p at) inner.pending;
      finalize_index = put_at p.landed_slot id inner.finalize_index;
    })
unfolding contains
confirmed-InvBut c f inner id at p e st v = record {
  distinct = insert-Distinct id _ inner.pending v.distinct;
  signatures = λ sig j.
      rw (signatures-insert inner id p (to_confirmed p at) e refl sig j) (v.signatures sig j);
  coherent = λ j q h. ground (arith, look j, v.coherent id p e, v.coherent j q);
  confirm_sound = λ s j h. ground (arith, look j, v.confirm_sound s j h);
  finalize_sound = λ s j h. ground (arith, look j, put_look s j, v.finalize_sound s j);
  confirm_complete = λ s j q h t l. ground (arith, look j, v.confirm_complete s j q);
  finalize_complete =
      λ s j q h t l. ground (arith, look j, put_look s j, v.finalize_complete s j q);
}
  where
    look :
        (j : ℕ)
        → get j (insert id (to_confirmed p at) inner.pending)
          ≡ (if id == j then some (to_confirmed p at) else get j inner.pending)
    look j = get-insert id j (to_confirmed p at) inner.pending

    put_look :
        (s j : ℕ)
        → holds s j (put_at p.landed_slot id inner.finalize_index)
          ≡ ((at_slot p.landed_slot s && id == j) || holds s j inner.finalize_index)
    put_look s j = holds-put_at p.landed_slot id s j inner.finalize_index

pub forgotten-InvBut :
    (c f : List ℕ) (inner : Inner) (id : ℕ) (p : Pending)
    → get id inner.pending ≡ some p
    → InvBut (id ∷ c) (id ∷ f) inner
    → InvBut c f (forgotten inner id p)
unfolding contains
forgotten-InvBut c f inner id p e v = record {
  distinct = remove-Distinct id inner.pending v.distinct;
  signatures = λ sig j. ground (
    arith,
    look j,
    get-remove p.memo_signature sig inner.by_sig,
    string_eq.beq_iff p.memo_signature sig,
    v.signatures sig j,
    v.signatures sig id,
    v.signatures p.memo_signature j,
  );
  coherent = λ j q h. ground (arith, look j, v.coherent j q);
  confirm_sound = λ s j h. ground (arith, look j, cut s j inner.confirm_index, v.confirm_sound s j);
  finalize_sound =
      λ s j h. ground (arith, look j, cut s j inner.finalize_index, v.finalize_sound s j);
  confirm_complete =
      λ s j q h t l. ground (arith, look j, cut s j inner.confirm_index, v.confirm_complete s j q);
  finalize_complete = λ s j q h t l.
      ground (arith, look j, cut s j inner.finalize_index, v.finalize_complete s j q);
}
  where
    look :
        (j : ℕ) → get j (remove id inner.pending) ≡ (if id == j then none else get j inner.pending)
    look j = get-remove id j inner.pending

    cut :
        (s j : ℕ) (ix : Index)
        → holds s j (remove_at p.landed_slot id ix)
          ≡ (if at_slot p.landed_slot s && id == j then false else holds s j ix)
    cut s j ix = holds-remove_at p.landed_slot id s j ix
