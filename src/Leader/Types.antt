-- ===== src/Leader/Types.antt =====
-- crates/leader/src/lib.rs: the configuration, the cached inputs, the window and the health states.
-- A validator's key is a number; times are milliseconds of a monotonic clock.
use solana_smart_tx.Base.{ℕ, Bool, Option, List}

pub record LeaderConfig : Type 0 where
  pub threshold_slots : ℕ
  pub lookahead_slots : ℕ
  pub max_clock_staleness : ℕ
  pub max_schedule_age : ℕ
  pub max_jito_age : ℕ

pub record LeaderWindow : Type 0 where
  pub current_slot : ℕ
  pub next_jito_leader_slot : ℕ
  pub slots_until : ℕ
  pub leader_identity : Option ℕ
  pub is_bam : Bool

pub data LeaderError : Type 0 where
  no_clock clock_stale no_schedule schedule_stale schedule_exhausted no_jito_data jito_stale
        no_jito_leader_in_lookahead :
      LeaderError

pub record ValidatorSets : Type 0 where
  pub jito : List ℕ
  pub bam : List ℕ

pub record SlotClock : Type 0 where
  pub slot : Option ℕ
  pub updated_at : Option ℕ

pub record LeaderSchedule : Type 0 where
  pub start_slot : ℕ
  pub leaders : List ℕ
  pub fetched_at : ℕ

pub record JitoSet : Type 0 where
  pub sets : ValidatorSets
  pub fetched_at : ℕ

pub record LeaderState : Type 0 where
  pub config : LeaderConfig
  pub clock : SlotClock
  pub schedule : Option LeaderSchedule
  pub jito : Option JitoSet
