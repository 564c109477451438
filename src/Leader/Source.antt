-- ===== src/Leader/Source.antt =====
-- crates/leader/src/lib.rs: `RpcJitoSource::fetch_validator_sets`, from the validators that the Jito
-- API lists; `pubkey_from_str` is solana's reading of a key.
use solana_smart_tx.Base.{ℕ, String, Bool, true, false, Option, none, some, List, [], ◌∷◌}
use solana_smart_tx.Base.Lists.{set_insert}
use solana_smart_tx.Base.Result.{Result, err, ok}
use solana_smart_tx.Leader.Types.{ValidatorSets}

pub record KobeValidator : Type 0 where
  pub identity_account : String
  pub running_jito : Bool
  pub running_bam : Bool

abbrev pub no_validators : ValidatorSets
no_validators = record { jito = []; bam = [] }

-- One turn of the loop, from the flags and the key.
unfoldable pub admitted :
    (running_jito running_bam : Bool) → Option ℕ → ValidatorSets → ValidatorSets
unfolding set_insert
admitted false running_bam key sets = sets
admitted true running_bam none sets = sets
admitted true false (some identity) sets = record sets { jito = set_insert identity sets.jito }
admitted true true (some identity) sets = record {
  jito = set_insert identity sets.jito;
  bam = set_insert identity sets.bam;
}

module _ (pubkey_from_str : String → Option ℕ) where
  unfoldable pub collect : List KobeValidator → ValidatorSets → ValidatorSets
  unfolding admitted
  collect [] sets = sets
  collect (v ∷ vs) sets =
      collect vs (admitted v.running_jito v.running_bam (pubkey_from_str v.identity_account) sets)

  unfoldable pub fetch_validator_sets : Result (List KobeValidator) → Option ValidatorSets
  unfolding collect
  fetch_validator_sets (err e) = none
  fetch_validator_sets (ok validators) = some (collect validators no_validators)
