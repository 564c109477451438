-- ===== src/Leader/Listed.antt =====
-- What a window tells of the validators that the Jito API listed.
use mathlib.Core.Path.{subst}
use solana_smart_tx.Base.{
  ◌≤◌, ◌-◌, ℕ, ◌≡◌, ◌⊎◌, ◌↔◌, inl, inr, String, Bool, true, false, Option, none, some, List, [],
  ◌∷◌, arith, ◌∙◌,
}
use solana_smart_tx.Base.Tests.{nat_eq}
use solana_smart_tx.Base.Lists.{contains, contains-set_insert}
use solana_smart_tx.Base.Result.{ok}
use solana_smart_tx.Leader.Types.{LeaderWindow, ValidatorSets, LeaderState}
use solana_smart_tx.Leader.Source.{
  KobeValidator, no_validators, admitted, collect, fetch_validator_sets,
}
use solana_smart_tx.Leader.Clock.{refresh_jito}
use solana_smart_tx.Leader.Window.{window, current_window}
use solana_smart_tx.Leader.Healthy.{Vouches, current_window-Vouches}

abbrev pub Any : {A : Type 0} → (A → Type 0) → List A → Type 0
Any P [] = ⊥
Any P (x ∷ xs) = P x ⊎ Any P xs

turn_or : {P Q A B C : Type 0} → (B ↔ (P ⊎ A)) → (C ↔ (Q ⊎ B)) → (C ↔ ((P ⊎ Q) ⊎ A))
turn_or {P} {Q} {A} {B} {C} (b, b') (c, c') = (λ x. from (c x), to)
  where
    from_b : P ⊎ A → (P ⊎ Q) ⊎ A
    from_b (inl p) = inl (inl p)
    from_b (inr a) = inr a

    from : Q ⊎ B → (P ⊎ Q) ⊎ A
    from (inl q) = inl (inr q)
    from (inr y) = from_b (b y)

    to : (P ⊎ Q) ⊎ A → C
    to (inl (inl p)) = c' (inr (b' (inl p)))
    to (inl (inr q)) = c' (inl q)
    to (inr a) = c' (inr (b' (inr a)))

admitted-jito :
    (k : ℕ) (runs bam : Bool) (key : Option ℕ) (sets : ValidatorSets)
    → (contains k (admitted runs bam key sets).jito ≡ true)
      ↔ (((runs ≡ true) × (key ≡ some k)) ⊎ (contains k sets.jito ≡ true))
unfolding admitted
admitted-jito k false bam key sets = ground arith
admitted-jito k true bam none sets = ground arith
admitted-jito k true false (some j) sets = ground (arith, contains-set_insert j k sets.jito)
admitted-jito k true true (some j) sets = ground (arith, contains-set_insert j k sets.jito)

admitted-bam :
    (k : ℕ) (runs bam : Bool) (key : Option ℕ) (sets : ValidatorSets)
    → (contains k (admitted runs bam key sets).bam ≡ true)
      ↔ (((runs ≡ true) × (bam ≡ true) × (key ≡ some k)) ⊎ (contains k sets.bam ≡ true))
unfolding admitted
admitted-bam k false bam key sets = ground arith
admitted-bam k true bam none sets = ground arith
admitted-bam k true false (some j) sets = ground arith
admitted-bam k true true (some j) sets = ground (arith, contains-set_insert j k sets.bam)

module _ (pubkey_from_str : String → Option ℕ) where
  -- The API lists the validator with this key as one that runs Jito, or BAM too.
  abbrev pub RunsJito : ℕ → KobeValidator → Type 0
  RunsJito k v = (v.running_jito ≡ true) × (pubkey_from_str v.identity_account ≡ some k)

  abbrev pub RunsBam : ℕ → KobeValidator → Type 0
  RunsBam k v =
      (v.running_jito ≡ true)
      × (v.running_bam ≡ true)
      × (pubkey_from_str v.identity_account ≡ some k)

  collect-jito :
      (k : ℕ) (l : List KobeValidator) (sets : ValidatorSets)
      → (contains k (collect pubkey_from_str l sets).jito ≡ true)
        ↔ (Any (RunsJito k) l ⊎ (contains k sets.jito ≡ true))
  unfolding collect
  collect-jito k [] sets = ground arith
  collect-jito k (v ∷ l) sets =
      let key = pubkey_from_str v.identity_account in
      turn_or (admitted-jito k v.running_jito v.running_bam key sets)
        (collect-jito k l (admitted v.running_jito v.running_bam key sets))

  collect-bam :
      (k : ℕ) (l : List KobeValidator) (sets : ValidatorSets)
      → (contains k (collect pubkey_from_str l sets).bam ≡ true)
        ↔ (Any (RunsBam k) l ⊎ (contains k sets.bam ≡ true))
  unfolding collect
  collect-bam k [] sets = ground arith
  collect-bam k (v ∷ l) sets =
      let key = pubkey_from_str v.identity_account in
      turn_or (admitted-bam k v.running_jito v.running_bam key sets)
        (collect-bam k l (admitted v.running_jito v.running_bam key sets))

  only_left : {A : Type 0} (k : ℕ) → A ⊎ (contains k [] ≡ true) → A
  unfolding contains
  only_left k (inl a) = a
  only_left k (inr e) = cc

  -- The window's leader is listed as running Jito, and `is_bam` says if it is listed as running BAM.
  abbrev pub ListedAs : List KobeValidator → LeaderWindow → Type 0
  ListedAs l w =
      (leader : ℕ) × (w.leader_identity ≡ some leader)
      × Any (RunsJito leader) l
      × ((w.is_bam ≡ true) ↔ Any (RunsBam leader) l)

  -- A window that is reported after the validators were fetched is for a leader that the list has as
  -- running Jito, by a key that can be read; `is_bam` says so exactly if the list has that key, in this
  -- or another entry that runs Jito, as running BAM; and the fetch is no older than its limit.
  pub current_window-ListedAs :
      (t : LeaderState) (l : List KobeValidator) (fetched_at clock_now schedule_now jito_now : ℕ)
      (w : LeaderWindow)
      → current_window
          (refresh_jito t (fetch_validator_sets pubkey_from_str (ok l)) fetched_at)
          clock_now
          schedule_now
          jito_now
        ≡ window w
      → ListedAs l w × (jito_now - fetched_at ≤ t.config.max_jito_age)
  unfolding refresh_jito fetch_validator_sets
  current_window-ListedAs t l fetched_at clock_now schedule_now jito_now w e =
      let t' : LeaderState =
        refresh_jito t (fetch_validator_sets pubkey_from_str (ok l)) fetched_at in
      let (_, _, (s, j, _, _, jito, age, (_, _, _, (leader, identity, _, runs, bam)))) =
        subst (Vouches t' clock_now schedule_now jito_now) e
          (current_window-Vouches t' clock_now schedule_now jito_now) in
      let sets = collect pubkey_from_str l no_validators in
      let same : sets ≡ j.sets = cc in
      let since : fetched_at ≡ j.fetched_at = cc in
      let listed : contains leader sets.jito ≡ true = cc in
      let flag : w.is_bam ≡ contains leader sets.bam = cc in
      let (of_bam, to_bam) = collect-bam leader l no_validators in
      (
        (
          leader,
          identity,
          only_left leader ((collect-jito leader l no_validators).0 listed),
          (λ b. only_left leader (of_bam cc), λ x. flag ∙ to_bam (inl x)),
        ),
        omega (arith, age, since),
      )
