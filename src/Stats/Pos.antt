-- ===== src/Stats/Pos.antt =====
-- stats/pos/staker.go and writer.go: the slots that were missed and that come, and the totals of the
-- validators. The scheduler of thor (`pos.NewScheduler`, `IsScheduled`) is a parameter; a panic is
-- `none`.
pub mod Arrays
pub mod Unpack
pub mod Individual
pub mod Contract
pub mod SlotPoints
pub mod OverviewPoint
pub mod Written
pub mod Missed
pub mod Found
pub mod Future
pub mod Overview
pub mod Energy
pub mod Shares
use thorflux.Base.{
  ℕ, zero, suc, ◌+◌, ◌%◌, Bool, true, false, not, ◌&&◌, Option, none, some, List, [], ◌∷◌, ◌++◌,
  map, ltb, ◌==◌, if◌then◌else◌, select, flatten, u32, u64, sub32,
}
use thorflux.Chain.{Block, Result, ok, err, ◌>>=◌, Tx, Output, Transfer}
use thorflux.Types.{Status, Validation, StakerInformation, AddressMap, lookup, Event}
use thorflux.Stats.Slots.{PosNode, FutureProposer, Floats, next_block_proposers_pos}
use thorflux.VetUtil.{scale_to_vet}

-- `pos.Proposer`.
pub record Proposer : Type 0 where
  pub address : ℕ
  pub active : Bool
  pub weight : ℕ

-- `pos.NewScheduler`: the test whether a time belongs to an address, or an error.
abbrev pub NewScheduler : Type 0
NewScheduler =
    (signer : ℕ) → List Proposer → (number timestamp : ℕ) → List ℕ → Result (ℕ → ℕ → Bool)

pub record MissedSlot : Type 0 where
  pub signer : ℕ
  pub was_online : Bool

unfoldable pub is_active : Status → Bool
is_active Status.active = true
is_active Status.unknown = false
is_active Status.queued = false
is_active Status.exit = false

unfoldable pub create_proposers : List Validation → List Proposer
unfolding is_active
create_proposers vs =
    map (λ (v : Validation). record { address = v.address; active = v.online; weight = v.weight })
      (select (λ (v : Validation). is_active v.status) vs)

-- The times of the outer loop, i, i + interval, ... below `stop`, on uint64; fuel stands for the
-- rounds.
unfoldable pub slot_times : (fuel interval i stop : ℕ) → List ℕ
slot_times zero interval i stop = []
slot_times (suc fuel) interval i stop =
    let rest = slot_times fuel interval (u64 (i + interval)) stop in
    if ltb i stop then i ∷ rest else []

-- The inner loop at the time `i`.
unfoldable pub scheduled_at : (ℕ → ℕ → Bool) → List Proposer → ℕ → List MissedSlot
scheduled_at is_scheduled ps i =
    map (λ (p : Proposer). record { signer = p.address; was_online = false })
      (select (λ (p : Proposer). is_scheduled i p.address) ps)

unfoldable pub missed_online :
    (ℕ → ℕ → Bool) → List Proposer → (interval : ℕ) → (parent block : Block) → List MissedSlot
unfolding slot_times scheduled_at
missed_online is_scheduled ps interval parent block = flatten (
    map (scheduled_at is_scheduled ps)
      (slot_times block.timestamp interval (u64 (parent.timestamp + interval)) block.timestamp))

abbrev pub is_some : {A : Type 0} → Option A → Bool
is_some none = false
is_some (some a) = true

-- What the second loop adds for one validator.
unfoldable pub missed_by : (ℕ → ℕ → Bool) → Block → Validation → List MissedSlot
missed_by is_scheduled block v =
    if is_scheduled block.timestamp v.address && not (block.signer == v.address)
    then record { signer = v.address; was_online = false } ∷ []
    else []

unfoldable pub missed_offline :
    NewScheduler
    → List Proposer
    → (parent block : Block) → List ℕ
    → List Validation
    → Result (List MissedSlot)
unfolding is_active missed_by
missed_offline sched ps parent block seed [] = ok []
missed_offline sched ps parent block seed (v ∷ vs) =
    let rest = missed_offline sched ps parent block seed vs in
    if not (is_active v.status)
    then rest
    else if is_some v.offline_block
    then rest
    else sched v.address ps parent.number parent.timestamp seed
      >>= (λ s. rest >>= (λ ms. ok (missed_by s block v ++ ms)))

-- `MissedSlots`.
unfoldable pub missed_slots :
    NewScheduler
    → (interval : ℕ) → (parent block : Block) → List Validation
    → List ℕ
    → Result (List MissedSlot × List MissedSlot)
unfolding create_proposers missed_online missed_offline
missed_slots sched interval parent block vs seed =
    let ps = create_proposers vs in
    sched block.signer ps parent.number parent.timestamp seed >>= (λ s.
      missed_offline sched ps parent block seed vs
      >>= (λ offline. ok (missed_online s ps interval parent block, offline)))

-- `createSlotsProposers`.
unfoldable pub create_slots_proposers : List Validation → List PosNode
unfolding is_active
create_slots_proposers vs =
    map
      (λ (v : Validation). record {
        master = v.address;
        endorsor = v.endorser;
        active = v.online;
        weight = v.weight;
      })
      (select (λ (v : Validation). is_active v.status) vs)

pub record FutureSlot : Type 0 where
  pub block : ℕ
  pub signer : ℕ
  pub index : ℕ

unfoldable pub future_slot : ℕ → ℕ → List FutureProposer → Option FutureSlot
future_slot number i [] = none
future_slot number i (p ∷ ps) =
    some
      (record { block = u32 (u32 (number + i) + 1); signer = p.node.master; index = u32 (i + 1) })

unfoldable pub cons_slot : Option FutureSlot → Option (List FutureSlot) → Option (List FutureSlot)
cons_slot none rest = none
cons_slot (some s) none = none
cons_slot (some s) (some rest) = some (s ∷ rest)

-- The rounds from `i` on; `list[0]` of an empty list panics.
unfoldable pub future_slots_from :
    {F : Type 0}
    → (List ℕ → ℕ → Floats F)
    → List PosNode
    → List ℕ
    → (number rounds i : ℕ) → Option (List FutureSlot)
unfolding future_slot cons_slot
future_slots_from floats nodes seed number zero i = some []
future_slots_from floats nodes seed number (suc rounds) i =
    cons_slot
      (future_slot number i (next_block_proposers_pos (floats seed (u32 (number + i))) nodes 101))
      (future_slots_from floats nodes seed number rounds (i + 1))

unfoldable pub predictable_slots : (epoch_length number : ℕ) → ℕ
predictable_slots epoch_length number = sub32 (sub32 epoch_length (number % epoch_length)) 1

-- `FutureSlots`.
unfoldable pub future_slots :
    {F : Type 0}
    → (List ℕ → ℕ → Floats F)
    → (epoch_length : ℕ) → List Validation
    → Block
    → List ℕ
    → Option (List FutureSlot)
unfolding create_slots_proposers future_slots_from predictable_slots
future_slots floats epoch_length vs block seed =
    future_slots_from floats (create_slots_proposers vs) seed block.number
      (predictable_slots epoch_length block.number) 0

-- The variables of the loop of `createValidatorOverview`.
pub record Totals : Type 0 where
  pub leader_group : AddressMap
  pub online_validators : ℕ
  pub online_stake : ℕ
  pub online_weight : ℕ
  pub accumulated_stake : ℕ
  pub accumulated_weight : ℕ
  pub offline_validators : ℕ
  pub offline_stake : ℕ
  pub offline_weight : ℕ
  pub exiting_vet : ℕ

abbrev pub no_totals : Totals
no_totals = record {
  leader_group = [];
  online_validators = 0;
  online_stake = 0;
  online_weight = 0;
  accumulated_stake = 0;
  accumulated_weight = 0;
  offline_validators = 0;
  offline_stake = 0;
  offline_weight = 0;
  exiting_vet = 0;
}

-- The online or the offline variables of a round.
unfoldable pub add_side : Validation → Totals → Totals
add_side v t =
    if v.online
    then record t {
      online_validators = t.online_validators + 1;
      online_stake = t.online_stake + v.total_locked_stake + v.delegator_stake;
      online_weight = u64 (t.online_weight + v.weight);
    }
    else record t {
      offline_validators = t.offline_validators + 1;
      offline_stake = t.offline_stake + v.total_locked_stake + v.delegator_stake;
      offline_weight = u64 (t.offline_weight + v.weight);
    }

unfoldable pub add_common : Validation → Totals → Totals
add_common v t = record t {
  leader_group = (v.address, v) ∷ t.leader_group;
  accumulated_stake =
      u64 (u64 (t.accumulated_stake + v.locked_vet) + scale_to_vet v.delegator_stake);
  accumulated_weight = u64 (t.accumulated_weight + v.weight);
  exiting_vet =
      if is_some v.exit_block then t.exiting_vet + v.total_exiting_stake else t.exiting_vet;
}

unfoldable pub totals_from : Totals → List Validation → Totals
unfolding is_active add_side add_common
totals_from t [] = t
totals_from t (v ∷ vs) =
    totals_from (if is_active v.status then add_side v (add_common v t) else t) vs
