-- ===== src/Leader/Ahead.antt =====
-- `next_jito_leader` against its description: the first group ahead whose leader runs Jito.
use Prim.Native.Nat.{max}
use solana_smart_tx.Base.{
  ℕ, zero, suc, ◌+◌, ◌-◌, ◌*◌, ◌%◌, ◌<◌, ◌≤◌, ◌≡◌, refl, inl, inr, Bool, true, false, Option, none,
  some, List, [], ◌∷◌, arith,
}
use solana_smart_tx.Base.Tests.{ltb, Bool-cases}
use solana_smart_tx.Base.Lists.{length, contains}
use solana_smart_tx.Leader.Schedule.{
  Search, found, exhausted, panicked, out_of_fuel, is_empty, nth, next_group_start, search,
  next_jito_leader,
}

nth_within : (xs : List ℕ) (i : ℕ) → i < length xs → (x : ℕ) × (nth xs i ≡ some x)
unfolding nth
nth_within [] i h = absurd (omega arith)
nth_within (x ∷ xs) zero h = (x, refl)
nth_within (x ∷ xs) (suc i) h = nth_within xs i (omega arith)

nth_beyond : (xs : List ℕ) (i : ℕ) → length xs ≤ i → nth xs i ≡ none
unfolding nth
nth_beyond [] i h = refl
nth_beyond (x ∷ xs) zero h = absurd (omega arith)
nth_beyond (x ∷ xs) (suc i) h = nth_beyond xs i (omega arith)

empty_length : (xs : List ℕ) → is_empty xs ≡ true → length xs ≡ 0
empty_length [] e = refl
empty_length (x ∷ xs) e = cc

-- Whether the leader, if there is one, runs Jito.
abbrev runs_jito : List ℕ → Option ℕ → Bool
runs_jito jito none = false
runs_jito jito (some leader) = contains leader jito

module _ (start_slot : ℕ) (leaders jito : List ℕ) where
  -- Whether the slot is led by a Jito validator, as far as the schedule tells.
  abbrev led : ℕ → Bool
  led slot = runs_jito jito (nth leaders (slot - start_slot))

  -- What a search from a slot in steps of four must answer.
  abbrev pub Answers : ℕ → Search → Type 0
  Answers from (found slot leader) =
      (k : ℕ) × (slot ≡ from + 4 * k)
      × (nth leaders (slot - start_slot) ≡ some leader)
      × (contains leader jito ≡ true)
      × ((i : ℕ) → i < k → led (from + 4 * i) ≡ false)
  Answers from exhausted = (i : ℕ) → led (from + 4 * i) ≡ false
  Answers from other = ⊥

  led_later :
      (from k : ℕ)
      → led from ≡ false
      → ((j : ℕ) → j < k → led (from + 4 + 4 * j) ≡ false)
      → (i : ℕ) → i < suc k
      → led (from + 4 * i) ≡ false
  led_later from k here later zero le = let e : from + 4 * 0 ≡ from = omega arith in rw e here
  led_later from k here later (suc j) le =
      let e : from + 4 * suc j ≡ from + 4 + 4 * j = omega arith in rw e (later j (omega arith))

  Answers-later : (from : ℕ) (r : Search) → led from ≡ false → Answers (from + 4) r → Answers from r
  Answers-later from (found slot leader) here (k, at, leads, jito_led, before) =
      (suc k, omega arith, leads, jito_led, led_later from k here before)
  Answers-later from exhausted here later =
      λ i. led_later from i here (λ j h. later j) i (omega arith)
  Answers-later from panicked here later = later
  Answers-later from out_of_fuel here later = later

  past_end : (from : ℕ) → start_slot + length leaders ≤ from → (i : ℕ) → led (from + 4 * i) ≡ false
  past_end from h i = rw (nth_beyond leaders (from + 4 * i - start_slot) (omega arith)) refl

  search-Answers :
      (fuel from : ℕ)
      → start_slot ≤ from
      → start_slot + length leaders - from < fuel
      → Answers from (search start_slot leaders jito fuel from)
  unfolding search
  search-Answers zero from le enough = absurd (omega arith)
  search-Answers (suc fuel) from le enough =
      elim (Bool-cases (ltb from (start_slot + length leaders))) [
        | inr past ↦ rw (past, search) (past_end from (ground arith))
        | inl more ↦
            let (leader, at) = nth_within leaders (from - start_slot) (ground arith) in
            let rest : Answers (from + 4) (search start_slot leaders jito fuel (from + 4)) =
              search-Answers fuel (from + 4) (omega arith) (ground arith) in
            elim (Bool-cases (contains leader jito)) [
              | inl runs ↦
                  rw (more, search, at, runs)
                    (0, omega arith, at, runs, λ i h. absurd (omega arith))
              | inr other ↦ rw (more, search, at, other) (Answers-later from _ (rw at other) rest)
            ]
      ]

  found_ahead :
      (current_slot slot leader : ℕ)
      → Answers (max (next_group_start current_slot) start_slot) (found slot leader)
      → (current_slot < slot)
        × (start_slot ≤ current_slot → slot % 4 ≡ 0)
        × (slot < start_slot + length leaders)
  found_ahead current_slot slot leader (k, at, leads, jito_led, before) = (
    omega arith,
    (λ le. omega arith),
    elim (Bool-cases (ltb slot (start_slot + length leaders))) [
      | inl within ↦ ground arith
      | inr beyond ↦ absurd (ground (arith, nth_beyond leaders (slot - start_slot)))
    ],
  )

  pub next_jito_leader-Answers :
      (current_slot : ℕ)
      → let r = next_jito_leader start_slot leaders jito current_slot in
        Answers (max (next_group_start current_slot) start_slot) r
        × ((slot leader : ℕ)
            → r ≡ found slot leader
            → (current_slot < slot)
              × (start_slot ≤ current_slot → slot % 4 ≡ 0)
              × (slot < start_slot + length leaders))
  unfolding next_jito_leader
  next_jito_leader-Answers current_slot =
      let from = max (next_group_start current_slot) start_slot in
      elim (Bool-cases (is_empty leaders)) [
        | inl none_left ↦
            rw (none_left, next_jito_leader)
              (
                past_end from (ground (arith, empty_length leaders none_left)),
                λ slot leader e. absurd (cc),
              )
        | inr some_left ↦
            let answer : Answers from (search start_slot leaders jito (suc (length leaders)) from) =
              search-Answers (suc (length leaders)) from (omega arith) (omega arith) in
            rw (some_left, next_jito_leader)
              (answer, λ slot leader e. found_ahead current_slot slot leader (rw e at answer))
      ]
