-- ===== src/Stats/Pos/Individual.antt =====
-- `createSingleValidatorStats` of stats/pos/writer.go. The order in which Go ranges over a map is a
-- parameter.
pub mod Changes
pub mod Exits
pub mod Queue
use thorflux.Base.{
  ℕ, ◌+◌, ◌*◌, String, Bool, true, false, not, Option, none, some, List, [], ◌∷◌, map, ltb, ◌==◌,
  if◌then◌else◌, select, u64, sub64,
}
use thorflux.Types.{
  Status, Validation, StakerInformation, AddressMap, lookup, validation_map, Event,
}
use thorflux.VetUtil.{scale_to_vet, scale_to_vet_signed}
use thorflux.Stats.Outcome.{Outcome, done, ◌>>=◌, deref}
use thorflux.Stats.Pos.{is_some}

unfoldable pub status_to_string : Status → String
status_to_string Status.queued = "queued"
status_to_string Status.active = "active"
status_to_string Status.exit = "exited"
status_to_string Status.unknown = "unknown"

unfoldable pub is_queued : Status → Bool
is_queued Status.queued = true
is_queued Status.unknown = false
is_queued Status.active = false
is_queued Status.exit = false

-- `queueOrder`, the latest write first.
unfoldable pub queue_order_from : List (ℕ × ℕ) → (queue_count : ℕ) → List Validation → List (ℕ × ℕ)
unfolding is_queued
queue_order_from m n [] = m
queue_order_from m n (v ∷ vs) =
    if is_queued v.status
    then queue_order_from ((v.address, n) ∷ m) (n + 1) vs
    else queue_order_from m n vs

-- `queueOrder[a]`, which is 0 for a missing key.
unfoldable pub position_of : ℕ → List (ℕ × ℕ) → ℕ
position_of a [] = 0
position_of a ((k, n) ∷ m) = if k == a then n else position_of a m

-- A point of a validator that is not in the current set any more.
pub record ExitPoint : Type 0 where
  pub validator : ℕ
  pub endorsor : ℕ
  pub status : String
  pub signalled_exit : Bool
  pub staking_period_length : ℕ
  pub exit_type : String
  pub status_changed : String
  pub cooldown_vet : Option ℕ
  pub time : ℕ

unfoldable pub exit_point : ℕ → ℕ × Validation → ExitPoint
unfolding status_to_string
exit_point time (addr, v) =
    let exited = is_some v.exit_block in
    record {
      validator = addr;
      endorsor = v.endorser;
      status = status_to_string Status.exit;
      signalled_exit = exited;
      staking_period_length = v.period;
      exit_type = if exited then "previously_active" else "previously_queued";
      status_changed = status_to_string Status.exit;
      cooldown_vet = if exited then some v.locked_vet else none;
      time = time;
    }

-- A point of a current validator. A field that the code writes in some branches only is an option.
pub record ValidatorPoint : Type 0 where
  pub validator : ℕ
  pub endorsor : ℕ
  pub status : String
  pub signalled_exit : Bool
  pub staking_period_length : ℕ
  pub online : Bool
  pub start_block : ℕ
  pub completed_periods : ℕ
  pub current_block : ℕ
  pub total_staked : ℕ
  pub total_weight : ℕ
  pub total_queued_vet : ℕ
  pub total_exiting_vet : ℕ
  pub next_period_weight : ℕ
  pub validator_staked : ℕ
  pub validator_weight : ℕ
  pub validator_queued_vet : ℕ
  pub delegators_staked : ℕ
  pub delegators_weight : ℕ
  pub delegator_queued_vet : ℕ
  pub offline_block : Option ℕ
  pub exit_block : Option ℕ
  pub weight_changed : Option ℕ
  pub stake_changed : Option ℕ
  pub exit_block_changed : Option ℕ
  pub online_changed : Option Bool
  pub status_changed : Option String
  pub queue_position : Option ℕ
  pub time : ℕ

-- `validator.X - prevEntry.X` on uint64, where they differ.
unfoldable pub difference : (now before : ℕ) → Option ℕ
difference now before = if before == now then none else some (sub64 now before)

unfoldable pub weight_change : Option Validation → Validation → Option ℕ
unfolding difference
weight_change none v = none
weight_change (some w) v = difference v.weight w.weight

unfoldable pub stake_change : Option Validation → Validation → Option ℕ
unfolding difference
stake_change none v = none
stake_change (some w) v = difference v.locked_vet w.locked_vet

unfoldable pub moved_exit : (before now : Option ℕ) → Option ℕ
moved_exit none now = none
moved_exit (some a) none = none
moved_exit (some a) (some b) = if a == b then none else some b

unfoldable pub exit_block_change : Option Validation → Validation → Option ℕ
unfolding moved_exit
exit_block_change none v = none
exit_block_change (some w) v = moved_exit w.exit_block v.exit_block

abbrev pub same_flag : Bool → Bool → Bool
same_flag true b = b
same_flag false b = not b

unfoldable pub online_change : Option Validation → Validation → Option Bool
online_change none v = some v.online
online_change (some w) v = if same_flag w.online v.online then none else some v.online

abbrev pub same_status : Status → Status → Bool
same_status Status.unknown Status.unknown = true
same_status Status.queued Status.queued = true
same_status Status.active Status.active = true
same_status Status.exit Status.exit = true
same_status s t = false

unfoldable pub status_change : Option Validation → Validation → Option String
unfolding status_to_string
status_change none v = some (status_to_string v.status)
status_change (some w) v =
    if same_status w.status v.status then none else some (status_to_string v.status)

-- The body of the second loop.
unfoldable pub validator_point :
    (number time : ℕ)
    → (queue_order : List (ℕ × ℕ)) → (prev_validators : AddressMap) → Validation
    → ValidatorPoint
unfolding status_to_string is_queued position_of weight_change stake_change exit_block_change
    online_change status_change
validator_point number time queue_order prev_validators v =
    let prev_entry = lookup v.address prev_validators in
    let multiplier = if ltb 0 v.delegator_stake then 2 else 1 in
    record {
      validator = v.address;
      endorsor = v.endorser;
      status = status_to_string v.status;
      signalled_exit = is_some v.exit_block;
      staking_period_length = v.period;
      online = v.online;
      start_block = v.start_block;
      completed_periods = v.completed_periods;
      current_block = number;
      total_staked = scale_to_vet v.total_locked_stake;
      total_weight = v.weight;
      total_queued_vet = scale_to_vet v.total_queued_stake;
      total_exiting_vet = scale_to_vet v.total_exiting_stake;
      next_period_weight = scale_to_vet v.next_period_weight;
      validator_staked = v.locked_vet;
      validator_weight = u64 (v.locked_vet * multiplier);
      validator_queued_vet = v.queued_vet;
      delegators_staked = scale_to_vet v.delegator_stake;
      delegators_weight = scale_to_vet_signed v.delegator_weight;
      delegator_queued_vet = scale_to_vet_signed v.delegator_queued_stake;
      offline_block = v.offline_block;
      exit_block = v.exit_block;
      weight_changed = weight_change prev_entry v;
      stake_changed = stake_change prev_entry v;
      exit_block_changed = exit_block_change prev_entry v;
      online_changed = online_change prev_entry v;
      status_changed = status_change prev_entry v;
      queue_position =
          if is_queued v.status then some (position_of v.address queue_order) else none;
      time = time;
    }

-- The entries of a map: the latest write of each key.
unfoldable pub entries : AddressMap → AddressMap
entries [] = []
entries ((k, v) ∷ m) = (k, v) ∷ select (λ (e : ℕ × Validation). not (e.0 == k)) (entries m)

pub record IndividualPoints : Type 0 where
  pub exits : List ExitPoint
  pub validators : List ValidatorPoint

unfoldable pub prev_map : Option StakerInformation → AddressMap
prev_map none = []
prev_map (some parent) = validation_map parent.validations

-- The points of the first loop, over the parent's validators, and of the second.
unfoldable pub individual_points :
    (range : AddressMap → AddressMap) → Event → (info staker : StakerInformation) → IndividualPoints
unfolding queue_order_from exit_point validator_point entries prev_map
individual_points range ev info staker =
    let prev_validators = prev_map ev.parent_staker in
    let validators = validation_map staker.validations in
    let queue_order = queue_order_from [] 0 info.validations in
    record {
      exits = map (exit_point ev.timestamp) (
          select (λ (e : ℕ × Validation). not (is_some (lookup e.0 validators)))
            (range (entries prev_validators)));
      validators =
          map (validator_point ev.block.number ev.timestamp queue_order prev_validators)
            info.validations;
    }

-- `createSingleValidatorStats`.
unfoldable pub create_single_validator_stats :
    (range : AddressMap → AddressMap) → Event → StakerInformation → Outcome IndividualPoints
unfolding individual_points
create_single_validator_stats range ev info = do
  staker ← deref ev.staker
  done (individual_points range ev info staker)
