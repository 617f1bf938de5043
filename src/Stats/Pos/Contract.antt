-- ===== src/Stats/Pos/Contract.antt =====
-- stats/pos/event_processors.go: what an event of the staker contract decodes to, and its kind. The libraries that
-- decode an event and the contract calls are parameters; where a call returns a nil point the point is
-- `none`.
pub mod Processors
pub mod Topics
pub mod Events
pub mod Measured
pub mod Counted
pub mod CountPoint
use text.Mathlib.Text.{◌==◌}
use thorflux.Base.{ℕ, ◌*◌, ◌/◌, ◌%◌, ◌^◌, String, Bool, Option, none, some, List, if◌then◌else◌}
use thorflux.Chain.{LogEvent, Result, ok, err}
use thorflux.VetUtil.{scale_to_vet}
use thorflux.Stats.Outcome.{Outcome, done, failed, panicked, ◌>>=◌, returned, deref, at}
use thorflux.Pubsub.Fetcher.{id_number}

-- An element of `UnpackValues`, by its Go type.
pub data AbiValue : Type 0 where
  uint8_value : ℕ → AbiValue
  uint32_value : ℕ → AbiValue
  big_int : ℕ → AbiValue
  common_address : ℕ → AbiValue
  thor_address : ℕ → AbiValue
  other_value : AbiValue

-- What a tag or a field is made of: a Boolean or a number, the text of one, an address, or a name.
pub data Value : Type 0 where
  flag : Bool → Value
  number : ℕ → Value
  flag_text : Bool → Value
  decimal : ℕ → Value
  address_text : ℕ → Value
  name_text : String → Value

pub record ContractPoint : Type 0 where
  pub measurement : String
  pub tags : List (String × Value)
  pub fields : List (String × Value)
  pub time : ℕ

pub record PeriodDetails : Type 0 where
  pub start_period : ℕ
  pub end_period : ℕ

pub record Delegation : Type 0 where
  pub validator : ℕ
  pub stake : ℕ
  pub multiplier : ℕ

pub record ValidationPeriod : Type 0 where
  pub period : ℕ
  pub start_block : ℕ
  pub completed_periods : ℕ

-- `hexutil.MustDecode`, which panics on `none`, `UnpackValues`, and the staker's calls at a revision.
pub record Staker : Type 0 where
  pub must_decode : String → Option (List ℕ)
  pub unpack_values : (event_name : String) → List ℕ → Result (List AbiValue)
  pub delegation_period_details : (revision id : ℕ) → Result PeriodDetails
  pub delegation : (revision id : ℕ) → Result Delegation
  pub validator_is_active : (revision validator : ℕ) → Result Bool
  pub validation_period_details : (revision validator : ℕ) → Result ValidationPeriod

-- The cases of the switch in `ProcessEvents`.
pub data Kind : Type 0 where
  validation_queued validation_withdrawn validation_signaled_exit : Kind
  stake_increased stake_decreased : Kind
  delegation_added delegation_withdrawn delegation_signaled_exit : Kind
  beneficiary_set : Kind

unfoldable pub kind_of : String → Option Kind
kind_of s =
    if s == "ValidationQueued"
    then some validation_queued
    else if s == "ValidationWithdrawn"
    then some validation_withdrawn
    else if s == "ValidationSignaledExit"
    then some validation_signaled_exit
    else if s == "StakeIncreased"
    then some stake_increased
    else if s == "StakeDecreased"
    then some stake_decreased
    else if s == "DelegationAdded"
    then some delegation_added
    else if s == "DelegationWithdrawn"
    then some delegation_withdrawn
    else if s == "DelegationSignaledExit"
    then some delegation_signaled_exit
    else if s == "BeneficiarySet"
    then some beneficiary_set
    else none

-- `thor.BytesToAddress` keeps the last twenty bytes.
unfoldable pub bytes_to_address : ℕ → ℕ
bytes_to_address topic = topic % 2 ^ 160

-- `abi.Inputs.UnpackValues(hexutil.MustDecode(event.Data))`.
unfoldable pub unpack_event : Staker → String → LogEvent → Outcome (List AbiValue)
unpack_event s name log = do
  bytes ← deref (s.must_decode log.payload)
  returned (s.unpack_values name bytes)

-- A type assertion that fails makes the processor return `nil, err` with a nil err.
unfoldable pub with_big_int :
    AbiValue → (ℕ → Outcome (Option ContractPoint)) → Outcome (Option ContractPoint)
with_big_int (big_int n) next = next n
with_big_int _ next = done none

unfoldable pub with_uint32 :
    AbiValue → (ℕ → Outcome (Option ContractPoint)) → Outcome (Option ContractPoint)
with_uint32 (uint32_value n) next = next n
with_uint32 _ next = done none

unfoldable pub with_uint8 :
    AbiValue → (ℕ → Outcome (Option ContractPoint)) → Outcome (Option ContractPoint)
with_uint8 (uint8_value n) next = next n
with_uint8 _ next = done none

unfoldable pub with_thor_address :
    AbiValue → (ℕ → Outcome (Option ContractPoint)) → Outcome (Option ContractPoint)
with_thor_address (thor_address a) next = next a
with_thor_address _ next = done none

-- The weight of a delegation, in percent of its stake.
unfoldable pub delegation_weight : (multiplier stake : ℕ) → ℕ
delegation_weight multiplier stake = multiplier * stake / 100
