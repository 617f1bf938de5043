-- ===== src/Examples/Proposing.antt =====
-- The theorems on the proposers and on the validators, at three nodes and two validators.
use thorflux.Base.{
  ℕ, ◌+◌, ◌*◌, ◌/◌, ◌%◌, ◌≡◌, refl, ◌≢◌, ◌↔◌, inl, inr, Bool, true, false, Option, none, some, List,
  [], ◌∷◌, map, arith, ltb, ◌==◌, length, select, All, Any,
}
use thorflux.Base.Int.{pos}
use thorflux.Base.Sorting.{sort_by, insert_by, IsAscending, key_lt}
use thorflux.Chain.{Block, ok}
use thorflux.Types.{Status, Validation, AuthorityNode, Event, StakerInformation}
use thorflux.Stats.Authority.{shuffle_candidates}
use thorflux.Stats.Slots.{
  PosNode, FutureProposer, Floats, Shuffling, next_block_proposers_poa, shuffle_authority_nodes,
  shuffle_pos_nodes, SlotPoint, next_block_proposers_pos, sorted_entries, entries_from,
  to_authority_node, proposers_from, max_count,
}
use thorflux.Stats.Slots as Slots
use mathlib.Core.List.{Perm}
use thorflux.Stats.Slots.Sampling.{shuffle_authority_nodes-active}
use thorflux.Stats.Slots.Written.{write-panics_iff}
use thorflux.Stats.Pos.{
  NewScheduler, MissedSlot, missed_slots, FutureSlot, future_slots, create_proposers,
  future_slots_from, is_active, future_slot, missed_online, slot_times, cons_slot,
  predictable_slots, scheduled_at, missed_offline, create_slots_proposers, missed_by,
}
use thorflux.Stats.Pos.Missed.{IsScheduledSlot, IsPassedOver, missed_slots-signers}
use thorflux.Stats.Pos.Found.{missed_slots_complete}
use thorflux.Stats.Pos.Future.{ArePredicted, future_slots-epoch}
use thorflux.Examples.Writing.{hash, candidates, nodes, event_at, late_block}
use thorflux.Examples.Data.{block_of}

shuffle_authority_nodes-active_example :
    let shuffled = shuffle_authority_nodes hash nodes in
    Perm shuffled nodes
    × IsAscending (key_lt (λ (n : AuthorityNode). hash n.master)) shuffled
    × (map (λ (n : AuthorityNode). n.master) (select (λ (n : AuthorityNode). n.active) shuffled)
        ≡ shuffle_candidates hash candidates)
shuffle_authority_nodes-active_example = shuffle_authority_nodes-active hash candidates

-- Whole numbers in place of the floating-point ones.
abbrev pub whole : Floats ℕ
whole = record {
  draw = λ i. i;
  is_zero = λ x. x == 0;
  tiny = 1;
  score = λ x w. x * 100 / w;
  lt = ltb;
}

abbrev shuffling : Shuffling ℕ
shuffling = record { hash = λ seed number a. a; floats = λ seed number. whole }

-- An event with PoS and without staker information.
abbrev without_staker : Event
without_staker = record (event_at late_block) {
  hayabusa_status = record { active = true; forked = true };
}

test-write_panics : Slots.write shuffling 10 without_staker ≡ none
unfolding Slots.write Slots.write_at Slots.write_pos
test-write_panics = refl

write-panics_iff_example : (Slots.write shuffling 10 without_staker ≡ none) ↔ (
    ◌≢◌ {A = Option Block} (some (block_of 3 103 102)) none
    × (◌≡◌ {A = Bool} true true)
    × (◌≡◌ {A = Option StakerInformation} none none))
write-panics_iff_example = write-panics_iff shuffling 10 without_staker (omega arith)

abbrev pub validation_of : (address weight : ℕ) → (online : Bool) → Option ℕ → Validation
validation_of address weight online offline_block = record {
  address = address;
  endorser = address + 50;
  period = 180;
  completed_periods = 0;
  status = Status.active;
  start_block = 0;
  exit_block = none;
  offline_block = offline_block;
  locked_vet = weight;
  queued_vet = 0;
  weight = weight;
  total_locked_stake = weight;
  total_locked_weight = weight;
  total_queued_stake = 0;
  next_period_weight = 0;
  total_exiting_stake = 0;
  online = online;
  delegator_stake = 0;
  delegator_weight = pos 0;
  delegator_queued_stake = pos 0;
  delegator_queued_weight = pos 0;
}

abbrev pub validators : List Validation
validators = validation_of 1 5 true none ∷ validation_of 2 7 false (some 3) ∷ []

-- A scheduler that expects validator 1 at even multiples of ten seconds and validator 2 at the others.
abbrev pub scheduler : NewScheduler
scheduler signer ps number timestamp seed = ok (λ t a. t / 10 % 2 + 1 == a)

test-missed_slots :
    missed_slots scheduler 10 (block_of 3 103 102) (record late_block { signer = 2 }) validators []
    ≡ ok (
      record { signer = 1; was_online = false } ∷ record { signer = 2; was_online = false } ∷ [],
      record { signer = 1; was_online = false } ∷ [],
    )
unfolding missed_slots create_proposers is_active missed_online slot_times scheduled_at
    missed_offline missed_by
test-missed_slots = refl

abbrev first_slot : MissedSlot
first_slot = record { signer = 1; was_online = false }

abbrev second_slot : MissedSlot
second_slot = record { signer = 2; was_online = false }

missed_slots-signers_example :
    ((s : ℕ → ℕ → Bool) × (scheduler 2 (create_proposers validators) 3 30 [] ≡ ok s)
      × All
          (λ (m : MissedSlot).
            IsScheduledSlot s validators 10
              (block_of 3 103 102)
              (record late_block { signer = 2 })
              m.signer)
          (first_slot ∷ second_slot ∷ []))
    × All
        (λ (m : MissedSlot). IsPassedOver validators (record late_block { signer = 2 }) m.signer)
        (first_slot ∷ [])
missed_slots-signers_example =
    missed_slots-signers scheduler 10 (block_of 3 103 102) (record late_block { signer = 2 })
      validators [] (first_slot ∷ second_slot ∷ []) (first_slot ∷ []) (omega arith) (omega arith)
      test-missed_slots

missed_slots_complete_example :
    Any (λ (m : MissedSlot). m.signer ≡ 2) (first_slot ∷ second_slot ∷ [])
missed_slots_complete_example =
    missed_slots_complete scheduler 10 (block_of 3 103 102) (record late_block { signer = 2 })
      validators [] (first_slot ∷ second_slot ∷ []) (first_slot ∷ []) (λ t a. t / 10 % 2 + 1 == a) 1
      2 (omega arith) (omega arith) refl test-missed_slots (inr (inl (refl, refl))) (omega arith)
      refl

-- Block 177 of an epoch of 180: the slots of 178 and 179.
abbrev two_slots : List FutureSlot
two_slots =
    record { block = 178; signer = 1; index = 1 }
    ∷ record { block = 179; signer = 1; index = 2 }
    ∷ []

test-future_slots :
    future_slots (λ seed number. whole) 180 validators (block_of 177 1 0) [] ≡ some two_slots
unfolding future_slots future_slots_from future_slot cons_slot predictable_slots
    create_slots_proposers is_active next_block_proposers_pos shuffle_pos_nodes sorted_entries
    entries_from to_authority_node proposers_from max_count sort_by insert_by
test-future_slots = refl

future_slots-epoch_example :
    (slots : List FutureSlot) × (future_slots
        (λ seed number. whole)
        180
        validators
        (block_of 177 1 0)
        []
      ≡ some slots)
    × (length slots + 1 + 177 ≡ 180)
    × ArePredicted (λ number. whole) (create_slots_proposers validators) 177 0 slots
future_slots-epoch_example =
    future_slots-epoch (λ seed number. whole) 180 validators (block_of 177 1 0) []
      (inl (refl, refl, omega arith)) (omega arith) (omega arith)

abbrev pub supply_of : (supply burned : ℕ) → StakerInformation
supply_of supply burned = record {
  validations = [];
  contract_balance = 0;
  queued_vet = 0;
  total_vet = 0;
  total_weight = 0;
  total_supply = supply;
  total_burned = burned;
  cooldown_vet = 0;
  withdrawable_vet = 0;
}
