-- ===== src/Submitter/Paced.antt =====
-- The pace of the requests that the rate limiter lets through, over every interleaving.
use mathlib.Core.Path.{subst}
use solana_smart_tx.Base.{
  ℕ, ◌+◌, ◌*◌, ◌≤◌, ◌≡◌, refl, sym, ap, ◌∙◌, List, [], ◌∷◌, ◌++◌, arith, inl, inr, ◌/◌, ◌^◌,
}
use solana_smart_tx.Base.Tests.{leb, Bool-cases}
use solana_smart_tx.Base.Lists.{length, All}
use solana_smart_tx.Submitter.Limiter.{
  Priority, limiter, Caller, calling, registered, cleared, reserved, waiting, admitted,
  acquire_step, max, System, acted, Step, tick, call, act, start_of, Reach, fresh, later,
}
use solana_smart_tx.Submitter.Pace.{
  due, Spaced, is_pending, holds, is_admitted, is_early, Inv, interval-limiter, leb→le, step_fixed,
  step_pending, step-Spaced, step_held, step_in_time, total, total_middle,
}

early_later : (now d : ℕ) (c : Caller) → is_early (now + d) c ≤ is_early now c
early_later now d (admitted s) = ground arith
early_later now d (calling p) = omega arith
early_later now d registered = omega arith
early_later now d cleared = omega arith
early_later now d (reserved p s) = omega arith
early_later now d (waiting s) = omega arith

total_early_later :
    (now d : ℕ) (l : List Caller) → total (is_early (now + d)) l ≤ total (is_early now) l
total_early_later now d [] = omega arith
total_early_later now d (c ∷ l) = omega (arith, early_later now d c, total_early_later now d l)

Inv-fresh : (rps now : ℕ) → Inv (limiter rps now).interval now (start_of rps now)
unfolding limiter
Inv-fresh rps now = record {
  fixed = refl;
  pending = refl;
  spaced = tt;
  next = omega arith;
  held = λ t. refl;
  in_time = refl;
  clock = omega arith;
}

Inv-tick :
    {interval t0 : ℕ} {s : System} (d : ℕ)
    → Inv interval t0 s
    → Inv interval t0 (record s { clock = s.clock + d })
Inv-tick {s} d i = record {
  fixed = i.fixed;
  pending = i.pending;
  spaced = i.spaced;
  next = i.next;
  held = i.held;
  in_time = omega (arith, total_early_later s.clock d s.callers, i.in_time);
  clock = omega (arith, i.clock);
}

Inv-call :
    {interval t0 : ℕ} {s : System} (p : Priority)
    → Inv interval t0 s
    → Inv interval t0 (record s { callers = calling p ∷ s.callers })
Inv-call p i = record {
  fixed = i.fixed;
  pending = omega (arith, i.pending);
  spaced = i.spaced;
  next = i.next;
  held = λ t. omega (arith, i.held t);
  in_time = omega (arith, i.in_time);
  clock = i.clock;
}

Inv-act :
    {interval t0 : ℕ} {s : System} (before : List Caller) (c : Caller) (after : List Caller)
    → s.callers ≡ before ++ c ∷ after
    → Inv interval t0 s
    → Inv interval t0 (acted s before c after)
Inv-act {interval} {t0} {s} before c after e i = record {
  fixed = step_fixed s.clock s.limiter c ∙ i.fixed;
  pending = omega (
    arith,
    there is_pending,
    here_is is_pending,
    i.pending,
    step_pending s.clock s.limiter c (total is_pending before + total is_pending after)
        (omega (arith, there is_pending, i.pending)),
  );
  spaced = (step-Spaced interval t0 s.clock s.limiter c s.starts i.fixed i.spaced i.next).0;
  next = (step-Spaced interval t0 s.clock s.limiter c s.starts i.fixed i.spaced i.next).1;
  held = λ t. omega (
    arith,
    there (holds t),
    here_is (holds t),
    i.held t,
    step_held s.clock t s.limiter c s.starts,
  );
  in_time = omega (
    arith,
    there (is_early s.clock),
    here_is (is_early s.clock),
    i.in_time,
    step_in_time s.clock s.limiter c,
  );
  clock = i.clock;
}
  where
    there : (w : Caller → ℕ) → total w s.callers ≡ total w before + w c + total w after
    there w = ap (total w) e ∙ total_middle w before c after

    here_is :
        (w : Caller → ℕ)
        → total w (acted s before c after).callers
          ≡ total w before + w (acquire_step s.clock s.limiter c).caller + total w after
    here_is w = total_middle w before (acquire_step s.clock s.limiter c).caller after

Step-Inv : {interval t0 : ℕ} {s t : System} → Step s t → Inv interval t0 s → Inv interval t0 t
Step-Inv {interval} {t0} (tick d e) i = subst (Inv interval t0) (sym e) (Inv-tick d i)
Step-Inv {interval} {t0} (call p e) i = subst (Inv interval t0) (sym e) (Inv-call p i)
Step-Inv {interval} {t0} (act before c after e f) i =
    subst (Inv interval t0) (sym f) (Inv-act before c after e i)

Reach-Inv : {rps now : ℕ} {s : System} → Reach rps now s → Inv (limiter rps now).interval now s
Reach-Inv {rps} {now} fresh = Inv-fresh rps now
Reach-Inv (later r st) = Step-Inv st (Reach-Inv r)

-- What the spacing means for a count.
Spaced-above :
    (interval t0 x : ℕ) (l : List ℕ) → Spaced interval t0 (x ∷ l) → t0 + length l * interval ≤ x
Spaced-above interval t0 x [] sp = omega (arith, sp)
Spaced-above interval t0 x (y ∷ l) sp = grind (arith, Spaced-above interval t0 y l sp.1)

Spaced-tail : (interval t0 x : ℕ) (l : List ℕ) → Spaced interval t0 (x ∷ l) → Spaced interval t0 l
Spaced-tail interval t0 x [] sp = tt
Spaced-tail interval t0 x (y ∷ l) sp = sp.1

due-le-length : (t : ℕ) (l : List ℕ) → due t l ≤ length l
due-le-length t [] = omega arith
due-le-length t (x ∷ l) = ground (arith, due-le-length t l)

mul_mono : (a b c : ℕ) → a ≤ b → a * c ≤ b * c
mul_mono a b c h = grind arith

due-Spaced :
    (interval t0 t : ℕ) (l : List ℕ)
    → t0 ≤ t
    → Spaced interval t0 l
    → t0 + due t l * interval ≤ t + interval
due-Spaced interval t0 t [] h sp = omega arith
due-Spaced interval t0 t (x ∷ l) h sp = elim (Bool-cases (leb x t)) [
  | inl e ↦ rw e (
      omega (
        arith,
        leb→le x t e,
        Spaced-above interval t0 x l sp,
        mul_mono (due t l) (length l) interval (due-le-length t l),
      ))
  | inr e ↦ rw e (due-Spaced interval t0 t l h (Spaced-tail interval t0 x l sp))
]

admitted_le : (now : ℕ) (c : Caller) → is_admitted c ≤ holds now c + is_early now c
admitted_le now (admitted s) = ground arith
admitted_le now (calling p) = omega arith
admitted_le now registered = omega arith
admitted_le now cleared = omega arith
admitted_le now (reserved p s) = omega arith
admitted_le now (waiting s) = omega arith

total_admitted_le :
    (now : ℕ) (l : List Caller) → total is_admitted l ≤ total (holds now) l + total (is_early now) l
total_admitted_le now [] = omega arith
total_admitted_le now (c ∷ l) = omega (arith, admitted_le now c, total_admitted_le now l)

-- Every request that was let through has had its start.
abbrev pub Started : ℕ → Caller → Type 0
Started now (admitted start) = start ≤ now
Started now _ = Unit

All-Started : (now : ℕ) (l : List Caller) → total (is_early now) l ≡ 0 → All (Started now) l
All-Started now [] e = tt
All-Started now (calling p ∷ l) e = (tt, All-Started now l (omega (arith, e)))
All-Started now (registered ∷ l) e = (tt, All-Started now l (omega (arith, e)))
All-Started now (cleared ∷ l) e = (tt, All-Started now l (omega (arith, e)))
All-Started now (reserved p s ∷ l) e = (tt, All-Started now l (omega (arith, e)))
All-Started now (waiting s ∷ l) e = (tt, All-Started now l (omega (arith, e)))
All-Started now (admitted s ∷ l) e = (ground arith, All-Started now l (ground arith))

-- Whatever the callers' order and priorities: the starts that the limiter hands out lie an interval
-- apart, the starts at or before any time are as many
-- as the requests that hold one, no request has been let through before its start, and since the limiter was made at `now` at most one request
-- for each full interval that has passed, and one more, was let through. The interval is a second
-- divided by the rate, which counts as 1 if it is 0. `high_pending` counts exactly the high callers
-- that are between its increment and its decrement.
pub Reach-Paced :
    {rps now : ℕ} {s : System}
    → Reach rps now s
    → (s.limiter.interval ≡ 10 ^ 9 / max rps 1)
      × Spaced s.limiter.interval now s.starts
      × All (Started s.clock) s.callers
      × ((t : ℕ) → due t s.starts ≡ total (holds t) s.callers)
      × (now + total is_admitted s.callers * s.limiter.interval ≤ s.clock + s.limiter.interval)
      × (s.limiter.high_pending ≡ total is_pending s.callers)
Reach-Paced {rps} {now} {s} r =
    let i = Reach-Inv r in
    let rate : s.limiter.interval ≡ (limiter rps now).interval = i.fixed in
    (
      rate ∙ interval-limiter rps now,
      rw rate i.spaced,
      All-Started s.clock s.callers i.in_time,
      i.held,
      rw rate (
          omega (
            arith,
            total_admitted_le s.clock s.callers,
            i.held s.clock,
            i.in_time,
            mul_mono (total is_admitted s.callers) (due s.clock s.starts) (limiter rps now).interval
                (omega (arith, total_admitted_le s.clock s.callers, i.held s.clock, i.in_time)),
            due-Spaced (limiter rps now).interval now s.clock s.starts i.clock i.spaced,
          )),
      i.pending,
    )
