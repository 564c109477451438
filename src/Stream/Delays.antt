-- ===== src/Stream/Delays.antt =====
-- The delays and the signals of the supervisor of the stream.
use Prim.Native.Nat.{min}
use solana_smart_tx.Base.{
  ℕ, suc, ◌+◌, ◌*◌, ◌^◌, ◌≤◌, refl, Bool, true, false, Option, none, some, List, [], ◌∷◌, arith,
}
use solana_smart_tx.Base.Tests.{leb, if◌then◌else◌}
use solana_smart_tx.Base.Lists.{All}
use solana_smart_tx.Stream.Decode.{Wire}
use solana_smart_tx.Stream.Backoff.{Backoff, reset, Backs, reset-Backs, next_delay-Backs}
use solana_smart_tx.Stream.Client.{
  backoff_base, backoff_cap, healthy_reset, Connection, ConnEnd, server_closed, disconnected, gone,
  Ran, healthy_or_not, Supervisor, Supervised, run_connection, and_again, next_supervisor,
  after_connection, supervise, run_inner, initial,
}

-- The draw scales a duration down.
abbrev pub Shrinks : Connection → Type 0
Shrinks c = (d : ℕ) → c.jitter d ≤ d

-- How many attempts there were since the start or the last healthy connection, before this one's delay.
abbrev pub unhealthy_before : Connection → ℕ → ℕ
unhealthy_before c n = if leb healthy_reset c.uptime then 0 else n

-- Each delay against its attempt.
abbrev pub DelaysWithin : List ℕ → List Connection → ℕ → Type 0
DelaysWithin [] l n = Unit {0}
DelaysWithin (d ∷ ds) [] n = ⊥
DelaysWithin (d ∷ ds) (c ∷ l) n =
    (d ≤ min backoff_cap (backoff_base * 2 ^ unhealthy_before c n))
    × DelaysWithin ds l (suc (unhealthy_before c n))

abbrev BacksAt : ℕ → Backoff → Type 0
BacksAt n b = Backs backoff_base backoff_cap n b

healthy_or_not-Backs :
    (c : Connection) (n : ℕ) (b : Backoff)
    → BacksAt n b
    → BacksAt (unhealthy_before c n) (healthy_or_not c.uptime b)
healthy_or_not-Backs c n b p = go (leb healthy_reset c.uptime)
  where
    go : (t : Bool) → BacksAt (if t then 0 else n) (if t then reset b else b)
    go true = reset-Backs backoff_base backoff_cap b p
    go false = p

module _ (wire : Wire) where
  again-DelaysWithin :
      (c : Connection) (l : List Connection) (n : ℕ) (s : Supervisor) (r : Ran)
      (later : Supervisor → Supervised)
      → Shrinks c
      → BacksAt n s.backoff
      → ((s' : Supervisor) (k : ℕ) → BacksAt k s'.backoff → DelaysWithin (later s').delays l k)
      → DelaysWithin (and_again wire c s r later).delays (c ∷ l) n
  again-DelaysWithin c l n s r later less p h =
      let (within, p') =
        next_delay-Backs backoff_base backoff_cap c.jitter (unhealthy_before c n)
          (healthy_or_not c.uptime s.backoff) less (healthy_or_not-Backs c n s.backoff p) in
      (within, h (next_supervisor wire c s r) (suc (unhealthy_before c n)) p')

  after-DelaysWithin :
      (c : Connection) (l : List Connection) (n : ℕ) (s : Supervisor) (r : Ran)
      (end : Option ConnEnd) (later : Supervisor → Supervised)
      → Shrinks c
      → BacksAt n s.backoff
      → ((s' : Supervisor) (k : ℕ) → BacksAt k s'.backoff → DelaysWithin (later s').delays l k)
      → DelaysWithin (after_connection wire c s r end later).delays (c ∷ l) n
  after-DelaysWithin c l n s r none later less p h = tt
  after-DelaysWithin c l n s r (some gone) later less p h = tt
  after-DelaysWithin c l n s r (some server_closed) later less p h =
      again-DelaysWithin c l n s r later less p h
  after-DelaysWithin c l n s r (some disconnected) later less p h =
      again-DelaysWithin c l n s r later less p h

  supervise-DelaysWithin :
      (l : List Connection) (s : Supervisor) (n : ℕ)
      → All Shrinks l
      → BacksAt n s.backoff
      → DelaysWithin (supervise wire l s).delays l n
  unfolding supervise
  supervise-DelaysWithin [] s n all p = tt
  supervise-DelaysWithin (c ∷ l) s n (less, all) p =
      let r = run_connection wire c (s.attempt + 1) s.dropped_slots in
      after-DelaysWithin c l n s r r.received.end (supervise wire l) less p
        (λ s' k p'. supervise-DelaysWithin l s' k all p')

  -- If the random draws only scale a delay down, each delay before a reconnect is at most 30 s and at
  -- most 250 ms doubled as often as there were attempts before this one, counted from the start or from
  -- the last connection that had stayed up for 60 s; also where the counter of attempts saturates and
  -- the cast of the exponent wraps around.
  pub run_inner-DelaysWithin :
      (l : List Connection) → All Shrinks l → DelaysWithin (run_inner wire l).delays l 0
  unfolding run_inner
  run_inner-DelaysWithin l all =
      supervise-DelaysWithin l (initial wire) 0 all
        (record { base = refl; cap = refl; attempt = omega arith })
