-- ===== src/Examples/Staking.antt =====
-- The theorems on the points of the staker, at three validators and two events.
use text.Mathlib.Text.{◌==◌}
use mathlib.Core.List.Perm
use thorflux.Base.{
  ℕ, zero, suc, ◌^◌, ◌≤◌, String, ◌≡◌, refl, sym, ◌≢◌, inl, inr, true, false, Option, none, some,
  List, [], ◌∷◌, ◌++◌, map, arith, if◌then◌else◌, Bool-cases, length, select, All, count,
}
use thorflux.Chain.{LogEvent, ok, err, not_found}
use thorflux.Types.{
  Status, Validation, StakerInformation, AddressMap, Event, lookup, validation_map, map_from,
}
use thorflux.Stats.Outcome.{done, failed, panicked, ◌>>=◌, at}
use thorflux.Stats.Pos.{
  is_active, create_proposers, missed_slots, missed_online, slot_times, scheduled_at,
  missed_offline, missed_by, future_slots, future_slots_from, future_slot, cons_slot,
  predictable_slots, create_slots_proposers,
}
use thorflux.Stats.Slots.{
  next_block_proposers_pos, shuffle_pos_nodes, sorted_entries, entries_from, to_authority_node,
  proposers_from, max_count,
}
use thorflux.Base.Sorting.{sort_by, insert_by}
use thorflux.Stats.Pos.Individual.{
  ExitPoint, ValidatorPoint, IndividualPoints, create_single_validator_stats,
}
use thorflux.Stats.Pos.Individual.Changes.{All2, Tells}
use thorflux.Stats.Pos.Individual.Exits.{create_single_validator_stats-exits}
use thorflux.Stats.Pos.Individual.Queue.{IsQueue, create_single_validator_stats-IsQueue}
use thorflux.Stats.Pos.OverviewPoint.{create_validator_overview}
use thorflux.Stats.Pos.SlotPoints.{create_slot_points}
use thorflux.Stats.Pos.Written.{Writer, StakerPoint, write, create_block_points, flags_from}
use thorflux.Stats.Pos.Written.Missing.{write-panicked}
use thorflux.Stats.Pos.Written.Composed.{validators_of, overviews_of, write-Tells}
use thorflux.Stats.Pos.Contract.{
  AbiValue, big_int, common_address, thor_address, Staker, kind_of, decimal, address_text,
  unpack_event, with_big_int, with_thor_address, bytes_to_address, ContractPoint,
}
use thorflux.Stats.Pos.Contract.Processors.{
  process, process_stake_increased, process_beneficiary_set,
}
use thorflux.Stats.Pos.Contract.Topics.{event_name, events_by_topic, add_logs, logs_of}
use thorflux.Stats.Pos.Contract.Events.{
  put_value, add_counts, count_points, process_events, process_logs, process_log, process_named,
  process_kind, append_point, count_event, initial_counts, reset_count,
}
use thorflux.Stats.Pos.Contract.Counted.{is_event, is_processed}
use thorflux.Stats.Pos.Contract.CountPoint.{count_point, named, process_events-count_point}
use thorflux.Stats.Pos.Contract.Measured.{
  OfPoint, IsOther, HasNoThorAddress, process_events-IsOther,
}
use thorflux.Examples.Writing.{event_at, late_block}
use thorflux.Examples.Proposing.{validation_of, whole, scheduler, supply_of}

abbrev parent_info : StakerInformation
parent_info = record (supply_of (10 ^ 18) 5) {
  validations = validation_of 1 4 true none ∷ validation_of 9 6 true none ∷ [];
}

abbrev queued : Validation
queued = record (validation_of 5 3 true none) { status = Status.queued }

abbrev info : StakerInformation
info = record (supply_of (10 ^ 18) 6) {
  validations = validation_of 1 5 true none ∷ queued ∷ validation_of 2 7 false (some 3) ∷ [];
}

abbrev staked_event : Event
staked_event = record (event_at late_block) {
  hayabusa_status = record { active = true; forked = true };
  staker = some info;
  parent_staker = some parent_info;
}

abbrev same_map : AddressMap → AddressMap
same_map m = m

create_single_validator_stats-exits_example :
    (points : IndividualPoints) × (create_single_validator_stats same_map staked_event info
      ≡ done points)
    × (count 9 (map (λ (p : ExitPoint). p.validator) points.exits) ≡ 1)
unfolding lookup validation_map map_from
create_single_validator_stats-exits_example =
    create_single_validator_stats-exits same_map staked_event info info 9 (λ m. Perm.rfl) refl

create_single_validator_stats-IsQueue_example :
    (points : IndividualPoints) × (create_single_validator_stats same_map staked_event info
      ≡ done points)
    × IsQueue 0 info.validations points.validators
create_single_validator_stats-IsQueue_example =
    create_single_validator_stats-IsQueue same_map staked_event info info refl
      (((λ e. omega arith), ((λ e. omega arith), tt)), (((λ e. omega arith), tt), (tt, tt)))

-- Every event has one value, the address 9, and no contract call is answered.
abbrev staker : Staker
staker = record {
  must_decode = λ s. some [];
  unpack_values = λ name bytes.
      if name == "BeneficiarySet" then ok (common_address 9 ∷ []) else ok (big_int 30 ∷ []);
  delegation_period_details = λ rev id. err not_found;
  delegation = λ rev id. err not_found;
  validator_is_active = λ rev validator. err not_found;
  validation_period_details = λ rev validator. err not_found;
}

abbrev writer : Writer ℕ
writer = record {
  interval = 10;
  epoch_length = 6;
  staker_address = 77;
  staker = staker;
  event_abis = [];
  sched = scheduler;
  floats = λ seed number. whole;
  fetch_validations = λ id. failed not_found;
  range_validators = same_map;
  range_topics = λ m. m;
  range_counts = λ m. m;
}

no_block_panic : create_block_points writer staked_event ≢ panicked
unfolding create_block_points events_by_topic add_logs logs_of process_events process_logs
    flags_from initial_counts ◌>>=◌
no_block_panic e = cc

no_slot_panic :
    create_slot_points scheduler (λ seed number. whole) 10 6 staked_event info ≢ panicked
unfolding create_slot_points missed_slots create_proposers is_active missed_online slot_times
    scheduled_at missed_offline missed_by future_slots future_slots_from future_slot cons_slot
    predictable_slots create_slots_proposers next_block_proposers_pos shuffle_pos_nodes
    sorted_entries entries_from to_authority_node proposers_from max_count sort_by insert_by ◌>>=◌
no_slot_panic e = cc

write-Tells_example :
    (points : List StakerPoint) × (write writer staked_event ≡ done points)
    × All2
        (λ (v : Validation) (p : ValidatorPoint).
          Tells (lookup v.address (validation_map parent_info.validations)) v p)
        info.validations
        (validators_of points)
    × (overviews_of points ≡ create_validator_overview 77 6 staked_event info ∷ [])
write-Tells_example =
    write-Tells writer staked_event info parent_info refl refl refl (omega arith) (omega arith)
      no_block_panic no_slot_panic

write-panicked_example : write writer (record staked_event { parent_staker = none }) ≡ panicked
write-panicked_example =
    write-panicked writer (record staked_event { parent_staker = none }) info not_found refl refl
      refl refl (inl refl)

-- Two events of the topics 5 and 6.
abbrev log_of : ℕ → LogEvent
log_of topic = record { address = 77; topics = topic ∷ 9 ∷ []; payload = "" }

abbrev abis : List (ℕ × String)
abis = (5, "StakeIncreased") ∷ (6, "BeneficiarySet") ∷ []

abbrev two_events : List (ℕ × List LogEvent)
two_events = (5, log_of 5 ∷ []) ∷ (6, log_of 6 ∷ []) ∷ []

abbrev two_points : List (Option ContractPoint)
two_points =
    some (record {
      measurement = "stake_increased";
      tags = ("validator", address_text 9) ∷ [];
      fields = ("added", decimal 30) ∷ [];
      time = 40;
    })
    ∷ none
    ∷ some (count_point 40 "StakeIncreased" 1)
    ∷ []

test-process_events : process_events staker (λ m. m) abis 3 40 two_events ≡ done two_points
unfolding process_events process_logs process_log process_named process_kind append_point
    count_event initial_counts reset_count count_points add_counts put_value event_name kind_of
    process process_stake_increased process_beneficiary_set unpack_event with_big_int
    with_thor_address bytes_to_address ◌>>=◌
test-process_events = refl

process_events-count_point_example :
    let logs = log_of 5 ∷ log_of 6 ∷ [] in
    (made : List (Option ContractPoint)) × (name : String) × (1 ≤ named name abis)
    × (length made ≤ length (select (is_processed abis) logs))
    × (two_points
        ≡ made ++ some (count_point 40 name (length (select (is_event abis name) logs))) ∷ [])
process_events-count_point_example =
    process_events-count_point staker (λ m. m) abis 3 40 two_events two_points (λ m. Perm.rfl)
      (λ e. cc) test-process_events

one_value :
    (v : AbiValue) (a i : ℕ) (vs : List AbiValue)
    → v ≢ thor_address a
    → ok vs ≡ ok (v ∷ [])
    → at vs i ≢ done (thor_address a)
one_value v a i [] h same found = cc
one_value v a zero (x ∷ vs) h same found = h (cc)
one_value v a (suc i) (x ∷ []) h same found = cc
one_value v a (suc i) (x ∷ y ∷ vs) h same found = cc

staker-HasNoThorAddress : HasNoThorAddress staker
staker-HasNoThorAddress name bytes i a values h found =
    elim (Bool-cases (name == "BeneficiarySet")) [
      | inl e ↦ one_value (common_address 9) a i values (λ k. cc) (sym (simp e at h)) found
      | inr e ↦ one_value (big_int 30) a i values (λ k. cc) (sym (simp e at h)) found
    ]

process_events-IsOther_example : All (OfPoint IsOther) two_points
process_events-IsOther_example =
    process_events-IsOther staker (λ m. m) abis 3 40 two_events two_points staker-HasNoThorAddress
      test-process_events
