-- ===== src/Examples/Leading.antt =====
-- A schedule of ten slots from slot 1000, two of whose leaders run Jito.
use solana_smart_tx.Base.{ℕ, ◌-◌, ◌≤◌, ◌≡◌, refl, some, List, [], ◌∷◌}
use solana_smart_tx.Base.Lists.{contains}
use solana_smart_tx.Leader.Types.{clock_stale, LeaderState}
use solana_smart_tx.Leader.Schedule.{found, nth, search, next_jito_leader}
use solana_smart_tx.Leader.Window.{WindowResult, unhealthy, window, current_window, wait_for_window}
use solana_smart_tx.Leader.Healthy.{Vouches, current_window-Vouches}
use solana_smart_tx.Base.{String, true, false, Option}
use solana_smart_tx.Base.Result.{ok}
use solana_smart_tx.Leader.Types.{LeaderWindow}
use solana_smart_tx.Leader.Source.{KobeValidator, fetch_validator_sets}
use solana_smart_tx.Leader.Clock.{refresh_jito}
use solana_smart_tx.Leader.Listed.{ListedAs, current_window-ListedAs}
use solana_smart_tx.Leader.Waiting.{Waited, wait_for_window-Waited}

abbrev leaders : List ℕ
leaders = 7 ∷ 7 ∷ 7 ∷ 7 ∷ 8 ∷ 8 ∷ 8 ∷ 8 ∷ 9 ∷ 9 ∷ []

abbrev jito : List ℕ
jito = 7 ∷ 9 ∷ []

next_jito_leader_1008 : next_jito_leader 1000 leaders jito 1001 ≡ found 1008 9
unfolding next_jito_leader search nth contains
next_jito_leader_1008 = refl

abbrev state : LeaderState
state = record {
  config = record {
    threshold_slots = 2;
    lookahead_slots = 1000;
    max_clock_staleness = 2000;
    max_schedule_age = 30000;
    max_jito_age = 1200000;
  };
  clock = record { slot = some 1001; updated_at = some 500000 };
  schedule = some (record { start_slot = 1000; leaders = leaders; fetched_at = 499000 });
  jito = some (record { sets = record { jito = jito; bam = 9 ∷ [] }; fetched_at = 400000 });
}

current_window-Vouches_example :
    Vouches state 500100 500100 500100 (current_window state 500100 500100 500100)
current_window-Vouches_example = current_window-Vouches state 500100 500100 500100

abbrev checks : List WindowResult
checks = current_window state 500100 500100 500100 ∷ unhealthy clock_stale ∷ []

wait_for_window-Waited_example : Waited 2 checks (wait_for_window 2 checks)
wait_for_window-Waited_example = wait_for_window-Waited 2 checks

-- Every key is read as 9.
abbrev read_key : String → Option ℕ
read_key s = some 9

abbrev listed : List KobeValidator
listed =
    record { identity_account = "v7"; running_jito = false; running_bam = true }
    ∷ record { identity_account = "v9"; running_jito = true; running_bam = true }
    ∷ []

abbrev next_window : LeaderWindow
next_window = record {
  current_slot = 1001;
  next_jito_leader_slot = 1008;
  slots_until = 7;
  leader_identity = some 9;
  is_bam = true;
}

window_after_fetch :
    current_window
      (refresh_jito state (fetch_validator_sets read_key (ok listed)) 500000)
      500100
      500100
      500100
    ≡ window next_window
unfolding current_window refresh_jito fetch_validator_sets next_jito_leader search nth contains
window_after_fetch = refl

current_window-ListedAs_example : ListedAs read_key listed next_window × (500100 - 500000 ≤ 1200000)
current_window-ListedAs_example =
    current_window-ListedAs read_key state listed 500000 500100 500100 500100 next_window
      window_after_fetch
