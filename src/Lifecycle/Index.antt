-- ===== src/Lifecycle/Index.antt =====
-- crates/lifecycle/src/lib.rs: the reverse indices, `entry(slot).or_default().insert(id)`,
-- `remove_id` and `drain_le`.
use solana_smart_tx.Base.{
  ℕ, ◌≤◌, ◌≡◌, refl, Bool, true, false, ◌&&◌, ◌||◌, List, [], ◌∷◌, ◌++◌, inl, inr, arith,
}
use solana_smart_tx.Base.Tests.{nat_eq, ◌==◌, ltb, leb, if◌then◌else◌, Bool-cases}
use solana_smart_tx.Base.Lists.{
  contains, set_insert, set_remove, contains-append, contains-set_insert, contains-set_remove,
}
use solana_smart_tx.Lifecycle.Types.{Index}

unfoldable pub put : ℕ → ℕ → Index → Index
put slot id [] = (slot, id ∷ []) ∷ []
put slot id ((s, ids) ∷ ix) =
    if s == slot
    then (s, set_insert id ids) ∷ ix
    else if ltb slot s
    then (slot, id ∷ []) ∷ (s, ids) ∷ ix
    else (s, ids) ∷ put slot id ix

abbrev keep_nonempty : ℕ → List ℕ → Index → Index
keep_nonempty s [] ix = ix
keep_nonempty s (id ∷ ids) ix = (s, id ∷ ids) ∷ ix

unfoldable pub remove_id : ℕ → ℕ → Index → Index
remove_id slot id [] = []
remove_id slot id ((s, ids) ∷ ix) =
    if s == slot
    then keep_nonempty s (set_remove id ids) (remove_id slot id ix)
    else (s, ids) ∷ remove_id slot id ix

-- `drain_le`: the ids at slots up to `n`, and what is left of the index.
abbrev drain_entry : ℕ → ℕ → List ℕ → List ℕ × Index → List ℕ × Index
drain_entry n s ids (drained, rest) =
    if leb s n then (ids ++ drained, rest) else (drained, (s, ids) ∷ rest)

unfoldable pub drain_le : ℕ → Index → List ℕ × Index
drain_le n [] = ([], [])
drain_le n ((s, ids) ∷ ix) = drain_entry n s ids (drain_le n ix)

-- Whether the index holds `id` at `slot`.
unfoldable pub holds : ℕ → ℕ → Index → Bool
holds slot id [] = false
holds slot id ((s, ids) ∷ ix) = (s == slot && contains id ids) || holds slot id ix

pub holds-put :
    (slot id s i : ℕ) (ix : Index)
    → holds s i (put slot id ix) ≡ ((slot == s && id == i) || holds s i ix)
unfolding holds put contains
holds-put slot id s i [] = ground arith
holds-put slot id s i ((k, ids) ∷ ix) =
    ground (arith, contains-set_insert id i ids, holds-put slot id s i ix)

holds-keep_nonempty :
    (s i k : ℕ) (ids : List ℕ) (ix : Index)
    → holds s i (keep_nonempty k ids ix) ≡ ((k == s && contains i ids) || holds s i ix)
unfolding holds contains
holds-keep_nonempty s i k [] ix = ground arith
holds-keep_nonempty s i k (id ∷ ids) ix = refl

pub holds-remove_id :
    (slot id s i : ℕ) (ix : Index)
    → holds s i (remove_id slot id ix) ≡ (if slot == s && id == i then false else holds s i ix)
unfolding holds remove_id
holds-remove_id slot id s i [] = ground arith
holds-remove_id slot id s i ((k, ids) ∷ ix) = ground (
  arith,
  holds-keep_nonempty s i k (set_remove id ids) (remove_id slot id ix),
  contains-set_remove id i ids,
  holds-remove_id slot id s i ix,
)

pub holds-drain_le :
    (n s i : ℕ) (ix : Index) → holds s i (drain_le n ix).1 ≡ (ltb n s && holds s i ix)
unfolding holds drain_le
holds-drain_le n s i [] = ground arith
holds-drain_le n s i ((k, ids) ∷ ix) = ground (arith, holds-drain_le n s i ix)

-- What is held at a slot up to `n` is drained.
pub drained_of_holds :
    (n s i : ℕ) (ix : Index) → s ≤ n → holds s i ix ≡ true → contains i (drain_le n ix).0 ≡ true
unfolding holds drain_le
drained_of_holds n s i [] le h = ground arith
drained_of_holds n s i ((k, ids) ∷ ix) le h =
    ground (arith, contains-append i ids (drain_le n ix).0, drained_of_holds n s i ix le)

-- What is drained was held at some slot up to `n`.
pub holds_of_drained :
    (n i : ℕ) (ix : Index)
    → contains i (drain_le n ix).0 ≡ true
    → (s : ℕ) × (s ≤ n) × (holds s i ix ≡ true)
unfolding holds drain_le contains
holds_of_drained n i [] h = ground arith
holds_of_drained n i ((k, ids) ∷ ix) h = elim (Bool-cases (leb k n && contains i ids)) [
  | inl here ↦ (k, ground arith, ground arith)
  | inr later ↦
      let (s, le, held) =
        holds_of_drained n i ix (ground (arith, contains-append i ids (drain_le n ix).0)) in
      (s, le, ground arith)
]
