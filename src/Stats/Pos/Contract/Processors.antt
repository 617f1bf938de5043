-- ===== src/Stats/Pos/Contract/Processors.antt =====
-- The processors of stats/pos/event_processors.go, one for each kind of event.
use thorflux.Base.{ℕ, ◌+◌, ◌*◌, String, true, Option, some, [], ◌∷◌, ltb, if◌then◌else◌, u32}
use thorflux.Chain.{LogEvent}
use thorflux.VetUtil.{scale_to_vet}
use thorflux.Stats.Outcome.{Outcome, done, ◌>>=◌, returned, at}
use thorflux.Pubsub.Fetcher.{id_number}
use thorflux.Stats.Pos.Contract.{
  flag, number, flag_text, decimal, address_text, ContractPoint, Staker, Kind, validation_queued,
  validation_withdrawn, validation_signaled_exit, stake_increased, stake_decreased,
  delegation_added, delegation_withdrawn, delegation_signaled_exit, beneficiary_set,
  bytes_to_address, unpack_event, with_big_int, with_uint32, with_uint8, with_thor_address,
  delegation_weight,
}

unfoldable pub process_beneficiary_set :
    Staker → String → LogEvent → ℕ → Outcome (Option ContractPoint)
unfolding bytes_to_address
process_beneficiary_set s name log time = do
  topic ← at log.topics 1
  out ← unpack_event s name log
  first ← at out 0
  with_thor_address first (λ beneficiary. done (
      some (record {
        measurement = "beneficiary_set";
        tags =
            ("validator", address_text (bytes_to_address topic))
            ∷ ("beneficiary", address_text beneficiary)
            ∷ [];
        fields = ("null", flag true) ∷ [];
        time = time;
      })))

unfoldable pub process_validation_queued :
    Staker → String → LogEvent → ℕ → Outcome (Option ContractPoint)
unfolding bytes_to_address
process_validation_queued s name log time = do
  topic ← at log.topics 1
  topic_2 ← at log.topics 2
  out ← unpack_event s name log
  first ← at out 0
  with_uint32 first (λ period. at out 1 >>= (λ second. with_big_int second (λ stake. done (
      some (record {
        measurement = "validation_queued";
        tags =
            ("validator", address_text (bytes_to_address topic))
            ∷ ("endorsor", address_text (bytes_to_address topic_2))
            ∷ [];
        fields = ("period", number period) ∷ ("stake", number (scale_to_vet stake)) ∷ [];
        time = time;
      })))))

unfoldable pub process_validation_withdrawn :
    Staker → String → LogEvent → ℕ → Outcome (Option ContractPoint)
unfolding bytes_to_address
process_validation_withdrawn s name log time = do
  topic ← at log.topics 1
  out ← unpack_event s name log
  first ← at out 0
  with_big_int first (λ stake. done (
      some (record {
        measurement = "validation_withdrawn";
        tags = ("validator", address_text (bytes_to_address topic)) ∷ [];
        fields = ("stake", number (scale_to_vet stake)) ∷ [];
        time = time;
      })))

unfoldable pub process_validation_signaled_exit : LogEvent → ℕ → Outcome (Option ContractPoint)
unfolding bytes_to_address
process_validation_signaled_exit log time = do
  topic ← at log.topics 1
  done (
      some (record {
        measurement = "validation_signaled_exit";
        tags = ("validator", address_text (bytes_to_address topic)) ∷ [];
        fields = ("null", flag true) ∷ [];
        time = time;
      }))

unfoldable pub process_stake_increased :
    Staker → String → LogEvent → ℕ → Outcome (Option ContractPoint)
unfolding bytes_to_address
process_stake_increased s name log time = do
  topic ← at log.topics 1
  out ← unpack_event s name log
  first ← at out 0
  with_big_int first (λ added. done (
      some (record {
        measurement = "stake_increased";
        tags = ("validator", address_text (bytes_to_address topic)) ∷ [];
        fields = ("added", decimal added) ∷ [];
        time = time;
      })))

unfoldable pub process_stake_decreased :
    Staker → String → LogEvent → ℕ → Outcome (Option ContractPoint)
unfolding bytes_to_address
process_stake_decreased s name log time = do
  topic ← at log.topics 1
  out ← unpack_event s name log
  first ← at out 0
  with_big_int first (λ removed. done (
      some (record {
        measurement = "stake_decreased";
        tags = ("validator", address_text (bytes_to_address topic)) ∷ [];
        fields = ("removed", decimal removed) ∷ [];
        time = time;
      })))

unfoldable pub process_delegation_added :
    Staker → ℕ → String → LogEvent → ℕ → Outcome (Option ContractPoint)
unfolding bytes_to_address delegation_weight
process_delegation_added s rev name log time = do
  topic ← at log.topics 1
  delegation_id ← at log.topics 2
  details ← returned (s.delegation_period_details rev delegation_id)
  out ← unpack_event s name log
  first ← at out 0
  with_big_int first (λ stake. at out 1 >>= (λ second. with_uint8 second (λ multiplier. done (
      some (record {
        measurement = "delegation_added";
        tags =
            ("validator", address_text (bytes_to_address topic))
            ∷ ("delegation_id", decimal delegation_id)
            ∷ [];
        fields =
            ("stake", number (scale_to_vet stake))
            ∷ ("multiplier", number multiplier)
            ∷ ("weight", number (scale_to_vet (delegation_weight multiplier stake)))
            ∷ ("start_period", number details.start_period)
            ∷ [];
        time = time;
      })))))

unfoldable pub process_delegation_withdrawn :
    Staker → ℕ → String → LogEvent → ℕ → Outcome (Option ContractPoint)
unfolding delegation_weight
process_delegation_withdrawn s rev name log time = do
  delegation_id ← at log.topics 1
  delegation ← returned (s.delegation rev delegation_id)
  details ← returned (s.delegation_period_details rev delegation_id)
  is_active ← returned (s.validator_is_active rev delegation.validator)
  complete ← returned (s.validation_period_details rev delegation.validator)
  let current =
      if is_active then u32 (complete.completed_periods + 1) else complete.completed_periods
  out ← unpack_event s name log
  first ← at out 0
  with_big_int first (λ stake. done (
      some (record {
        measurement = "delegation_withdrawn";
        tags =
            ("validator", address_text delegation.validator)
            ∷ ("delegation_id", decimal delegation_id)
            ∷ [];
        fields =
            ("stake", number (scale_to_vet stake))
            ∷ ("multiplier", number delegation.multiplier)
            ∷ ("weight", number (scale_to_vet (delegation_weight delegation.multiplier stake)))
            ∷ ("started", flag_text (ltb details.start_period current))
            ∷ ("block", number (id_number rev))
            ∷ [];
        time = time;
      })))

unfoldable pub process_delegation_signaled_exit :
    Staker → ℕ → LogEvent → ℕ → Outcome (Option ContractPoint)
unfolding delegation_weight
process_delegation_signaled_exit s rev log time = do
  delegation_id ← at log.topics 1
  delegation ← returned (s.delegation rev delegation_id)
  details ← returned (s.delegation_period_details rev delegation_id)
  validation ← returned (s.validation_period_details rev delegation.validator)
  let exit_block = u32 (validation.start_block + u32 (validation.period * details.end_period))
  done (
      some (record {
        measurement = "delegation_signaled_exit";
        tags =
            ("validator", address_text delegation.validator)
            ∷ ("delegation_id", decimal delegation_id)
            ∷ [];
        fields =
            ("exit_period", number details.end_period)
            ∷ ("first_period", number details.start_period)
            ∷ ("exit_block", number exit_block)
            ∷ ("stake", number (scale_to_vet delegation.stake))
            ∷ ("multiplier", number delegation.multiplier)
            ∷ (
              "weight",
              number (scale_to_vet (delegation_weight delegation.multiplier delegation.stake)),
            )
            ∷ ("block", number (id_number rev))
            ∷ ("validator_start_block", number validation.start_block)
            ∷ ("validator_staking_period", number validation.period)
            ∷ [];
        time = time;
      }))

-- The processor that the switch chooses, applied.
unfoldable pub process :
    Staker → Kind → (rev : ℕ) → String → LogEvent → ℕ → Outcome (Option ContractPoint)
unfolding process_validation_queued process_validation_withdrawn process_validation_signaled_exit
    process_stake_increased process_stake_decreased process_delegation_added
    process_delegation_withdrawn process_delegation_signaled_exit process_beneficiary_set
process s validation_queued rev name log time = process_validation_queued s name log time
process s validation_withdrawn rev name log time = process_validation_withdrawn s name log time
process s validation_signaled_exit rev name log time = process_validation_signaled_exit log time
process s stake_increased rev name log time = process_stake_increased s name log time
process s stake_decreased rev name log time = process_stake_decreased s name log time
process s delegation_added rev name log time = process_delegation_added s rev name log time
process s delegation_withdrawn rev name log time = process_delegation_withdrawn s rev name log time
process s delegation_signaled_exit rev name log time =
    process_delegation_signaled_exit s rev log time
process s beneficiary_set rev name log time = process_beneficiary_set s name log time
