-- ===== src/Stats/Pos/Unpack.antt =====
-- stats/pos/staker.go: FetchValidations, unpackInfo and unpackValidators. The answers of the contract
-- and the libraries that decode hexadecimal text and the ABI of `getValidators` are parameters.
pub mod RoundTrip
pub mod Words
use thorflux.Base.{
  ℕ, zero, suc, ◌+◌, ◌-◌, ◌*◌, ◌^◌, String, Bool, true, false, not, ◌||◌, Option, none, some, List,
  [], ◌∷◌, map, ◌==◌, if◌then◌else◌, length, u64,
}
use thorflux.Base.Int.{pos, sub_ℕ, ◌-ℤ◌}
use thorflux.Chain.{Result, ok, err, wrapped, failure}
use thorflux.Stats.Pos.Arrays.{AbiArray, Columns, columns_of}
use thorflux.Types.{Status, Validation, StakerInformation}
use thorflux.VetUtil.{scale_to_vet}
use thorflux.Stats.Outcome.{slice, Outcome, done, panicked, ◌>>=◌, check, check_call, returned, at}

-- Their elements at one index.
pub record Row : Type 0 where
  pub master : ℕ
  pub endorsor : ℕ
  pub status : ℕ
  pub online : Bool
  pub offline_block : ℕ
  pub staking_period_length : ℕ
  pub start_block : ℕ
  pub exit_block : ℕ
  pub completed_periods : ℕ
  pub validator_locked_vet : ℕ
  pub validator_locked_weight : ℕ
  pub delegators_stake : ℕ
  pub validator_queued_stake : ℕ
  pub total_queued_stake : ℕ
  pub exiting_stake : ℕ
  pub next_period_weight : ℕ

-- The index expressions of a round; each panics beyond the end of its array.
unfoldable pub row_at : Columns → ℕ → Outcome Row
row_at c i = do
  master ← at c.masters i
  endorsor ← at c.endorsors i
  status ← at c.statuses i
  online ← at c.onlines i
  offline_block ← at c.offline_blocks i
  staking_period_length ← at c.staking_period_lengths i
  start_block ← at c.start_blocks i
  exit_block ← at c.exit_blocks i
  completed_periods ← at c.completed_periods i
  validator_locked_vet ← at c.validator_locked_vets i
  validator_locked_weight ← at c.validator_locked_weights i
  delegators_stake ← at c.delegators_stakes i
  validator_queued_stake ← at c.validator_queued_stakes i
  total_queued_stake ← at c.total_queued_stakes i
  exiting_stake ← at c.exiting_stakes i
  next_period_weight ← at c.next_period_weights i
  done (record {
    master = master;
    endorsor = endorsor;
    status = status;
    online = online;
    offline_block = offline_block;
    staking_period_length = staking_period_length;
    start_block = start_block;
    exit_block = exit_block;
    completed_periods = completed_periods;
    validator_locked_vet = validator_locked_vet;
    validator_locked_weight = validator_locked_weight;
    delegators_stake = delegators_stake;
    validator_queued_stake = validator_queued_stake;
    total_queued_stake = total_queued_stake;
    exiting_stake = exiting_stake;
    next_period_weight = next_period_weight;
  })

-- `validation.Status` of a byte; the contract has the values 0 to 3.
unfoldable pub status_of : ℕ → Status
status_of b =
    if b == 1
    then Status.queued
    else if b == 2
    then Status.active
    else if b == 3
    then Status.exit
    else Status.unknown

abbrev pub max_uint32 : ℕ
max_uint32 = 2 ^ 32 - 1

-- `if blocks[i] != math.MaxUint32 { field = &blocks[i] }`.
unfoldable pub block_unless_max : ℕ → Option ℕ
block_unless_max b = if b == max_uint32 then none else some b

unfoldable pub to_validation : Row → Validation
unfolding status_of block_unless_max
to_validation r = record {
  address = r.master;
  endorser = r.endorsor;
  period = r.staking_period_length;
  completed_periods = r.completed_periods;
  status = status_of r.status;
  start_block = r.start_block;
  exit_block = block_unless_max r.exit_block;
  offline_block = block_unless_max r.offline_block;
  locked_vet = scale_to_vet r.validator_locked_vet;
  queued_vet = scale_to_vet r.validator_queued_stake;
  weight = scale_to_vet r.validator_locked_weight;
  total_locked_stake = r.validator_locked_vet + r.delegators_stake;
  total_locked_weight = r.validator_locked_weight;
  total_queued_stake = r.total_queued_stake;
  next_period_weight = r.next_period_weight;
  total_exiting_stake = r.exiting_stake;
  online = r.online;
  delegator_stake = r.delegators_stake;
  delegator_weight = sub_ℕ r.validator_locked_weight (r.validator_locked_vet * 2);
  delegator_queued_stake = sub_ℕ r.total_queued_stake r.validator_queued_stake;
  delegator_queued_weight =
      sub_ℕ r.next_period_weight r.validator_locked_weight -ℤ pos (r.validator_queued_stake * 2);
}

-- `n` rounds from index `i` on.
unfoldable pub rounds_from : Columns → (i n : ℕ) → Outcome (List Validation)
unfolding row_at to_validation
rounds_from c i zero = done []
rounds_from c i (suc n) = do
  r ← row_at c i
  vs ← rounds_from c (i + 1) n
  done (to_validation r ∷ vs)

-- `hexutil.Decode`, and `UnpackValues` of the ABI of `getValidators`.
pub record Abi : Type 0 where
  pub decode : String → Result (List ℕ)
  pub unpack_values : List ℕ → Result (List AbiArray)

unfoldable pub unpack_validators : Abi → String → Outcome (List Validation)
unfolding rounds_from columns_of
unpack_validators abi text = do
  bytes ← check "failed to decode result data: %w" (abi.decode text)
  out ← returned (abi.unpack_values bytes)
  columns ← columns_of out
  rounds_from columns 0 (length columns.masters)

-- `SetBytes`, big-endian.
unfoldable pub set_bytes_from : ℕ → List ℕ → ℕ
set_bytes_from n [] = n
set_bytes_from n (b ∷ bs) = set_bytes_from (n * 256 + b) bs

unfoldable pub set_bytes : List ℕ → ℕ
unfolding set_bytes_from
set_bytes bs = set_bytes_from 0 bs

-- `unpackInfo`, on the texts of the nine results of the call.
unfoldable pub unpack_info : Abi → List String → Outcome StakerInformation
unfolding unpack_validators set_bytes
unpack_info abi result = do
  validators_call ← at result 1
  staker_balance_call ← at result 2
  total_stake_call ← at result 3
  queued_stake_call ← at result 4
  validators ← check_call "failed to unpack validators: %w" (unpack_validators abi validators_call)
  total_stake ← check "failed to decode total stake data: %w" (abi.decode total_stake_call)
  total_vet ← slice total_stake 0 32
  total_weight ← slice total_stake 32 64
  queued_stake ← check "failed to decode queued stake data: %w" (abi.decode queued_stake_call)
  queued_vet ← slice queued_stake 0 32
  balance ← check "failed to decode staker balance data: %w" (abi.decode staker_balance_call)
  supply_call ← at result 5
  supply ← check "failed to decode total supply data: %w" (abi.decode supply_call)
  burned_call ← at result 6
  burned ← check "failed to decode total burned data: %w" (abi.decode burned_call)
  withdrawable_call ← at result 7
  withdrawable ← check "failed to decode withdrawable stake data: %w" (abi.decode withdrawable_call)
  cooldown_call ← at result 8
  cooldown ← check "failed to decode cooldown stake data: %w" (abi.decode cooldown_call)
  done (record {
    validations = validators;
    contract_balance = set_bytes balance;
    queued_vet = set_bytes queued_vet;
    total_vet = set_bytes total_vet;
    total_weight = set_bytes total_weight;
    total_supply = set_bytes supply;
    total_burned = set_bytes burned;
    cooldown_vet = u64 (set_bytes cooldown);
    withdrawable_vet = u64 (set_bytes withdrawable);
  })

-- A result of one clause of an inspected call.
pub record CallResult : Type 0 where
  pub text : String
  pub reverted : Bool
  pub vm_error : Bool

unfoldable pub call_failed : List CallResult → Bool
call_failed [] = false
call_failed (r ∷ rs) = if r.reverted || r.vm_error then true else call_failed rs

-- `fetchStakerInfo` behind `InspectClauses`: nine clauses are sent.
unfoldable pub fetch_staker_info : Result (List CallResult) → Result (List CallResult)
unfolding call_failed
fetch_staker_info (err e) = err (wrapped "failed to fetch staker info: %w" e)
fetch_staker_info (ok res) =
    if not (length res == 9)
    then err (failure "unexpected number of results: %d, expected %d")
    else if call_failed res
    then err (failure "call %d reverted or had VM error: %s")
    else ok res

unfoldable pub fetch_validations : Abi → Result (List CallResult) → Outcome StakerInformation
unfolding fetch_staker_info unpack_info
fetch_validations abi answer = do
  raw ← check "failed to fetch staker info: %w" (fetch_staker_info answer)
  check_call "failed to unpack staker info: %w"
      (unpack_info abi (map (λ (r : CallResult). r.text) raw))
