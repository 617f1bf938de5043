-- ===== src/Stats/Authority/Points.antt =====
-- `Write` of stats/authority/list.go: the points of a block before the activation, and what becomes of
-- the list behind them.
use thorflux.Base.{
  ℕ, zero, suc, ◌+◌, ◌-◌, ◌*◌, ◌/◌, ◌%◌, String, Bool, Option, none, some, List, [], ◌∷◌, ◌++◌, map,
  ltb, ◌==◌, if◌then◌else◌, get_elem?, take, u32, u64, sub64,
}
use thorflux.Chain.{Block}
use thorflux.Types.{Event}
use thorflux.Stats.Authority.{
  Candidate, Owner, CandidateList, Builtins, Answers, should_reset, refresh_owners_list, init,
  shuffled,
}

-- The points of `Write`, one record for each measurement.
pub record RecentSlot : Type 0 where
  pub filled : ℕ
  pub proposer : ℕ
  pub owner : String
  pub contact : String
  pub epoch : ℕ
  pub block_number : ℕ
  pub time : ℕ

-- `candidate_states` are the fields named by masters, `top` the fields candidates0 to candidates4.
pub record AuthorityNodes : Type 0 where
  pub candidate_states : List (ℕ × Bool)
  pub signer : ℕ
  pub block_number : ℕ
  pub top : List ℕ
  pub time : ℕ

pub record MissedSlot : Type 0 where
  pub actual_proposer : ℕ
  pub expected_proposer : ℕ
  pub block_number : ℕ
  pub time : ℕ

pub record AggregatedSlots : Type 0 where
  pub missed : ℕ
  pub filled : ℕ
  pub time : ℕ

pub data Point : Type 0 where
  recent : RecentSlot → Point
  nodes : AuthorityNodes → Point
  missed : MissedSlot → Point
  aggregated : AggregatedSlots → Point

-- `thor.EpochLength()` and `thor.BlockInterval()`.
pub record Constants : Type 0 where
  pub epoch_length : ℕ
  pub block_interval : ℕ

unfoldable pub find_owner : ℕ → List (ℕ × Owner) → Option Owner
find_owner k [] = none
find_owner k ((j, o) ∷ m) = if j == k then some o else find_owner k m

abbrev pub name_and_contact : Option Owner → String × String
name_and_contact none = ("?", "?")
name_and_contact (some o) = (o.name, o.point_of_contact)

unfoldable pub owner_and_contact : ℕ → CandidateList → String × String
unfolding find_owner
owner_and_contact proposer l = name_and_contact (find_owner proposer l.owners)

-- (block.Timestamp - prev.Timestamp + interval - 1) / interval, on uint64.
unfoldable pub slots_since : ℕ → (prev_time time : ℕ) → ℕ
slots_since interval prev_time time = sub64 (u64 (sub64 time prev_time + interval)) 1 / interval

abbrev pub detailed_slot_window : ℕ
detailed_slot_window = 360

unfoldable pub start_slot : ℕ → ℕ
start_slot slots = if ltb detailed_slot_window slots then slots - detailed_slot_window else 0

unfoldable pub recent_slot :
    Constants → CandidateList → Block → (filled proposer time : ℕ) → RecentSlot
recent_slot k l block filled proposer time = record {
  filled = filled;
  proposer = proposer;
  owner = (owner_and_contact proposer l).0;
  contact = (owner_and_contact proposer l).1;
  epoch = block.number / k.epoch_length;
  block_number = block.number;
  time = time;
}

-- `shuffledCandidates[a]`, or the zero address out of bounds.
abbrev pub address_or_zero : Option ℕ → ℕ
address_or_zero none = 0
address_or_zero (some a) = a

-- The loop over the slots from `a` on, with the rounds left; `proposer` is the variable that the loop
-- overwrites at an empty slot.
unfoldable pub slot_loop :
    Constants
    → CandidateList
    → (prev block : Block) → (addresses : List ℕ) → (slots rounds a proposer : ℕ) → List RecentSlot
unfolding recent_slot
slot_loop k l prev block addresses slots zero a proposer = []
slot_loop k l prev block addresses slots (suc rounds) a proposer =
    let is_filled = a == sub64 slots 1 in
    let chosen = if is_filled then proposer else address_or_zero (get_elem? addresses a) in
    recent_slot k l block (if is_filled then 1 else 0) chosen
      (u64 (prev.timestamp + a * k.block_interval))
    ∷ slot_loop k l prev block addresses slots rounds (a + 1) chosen

unfoldable pub empty_slots :
    Constants → CandidateList → (prev block : Block) → List ℕ → ℕ → List RecentSlot
unfolding slot_loop start_slot
empty_slots k l prev block addresses slots =
    slot_loop k l prev block addresses slots (sub64 slots 1 - start_slot slots) (start_slot slots)
      block.signer

unfoldable pub aggregate : (prev : Block) → ℕ → List AggregatedSlots
aggregate prev slots =
    if ltb detailed_slot_window slots
    then record { missed = slots - detailed_slot_window - 1; filled = 1; time = prev.timestamp }
      ∷ []
    else []

-- The point "missed_slots", if the first of the shuffled candidates is not the signer.
unfoldable pub missed_slot : Block → List ℕ → List MissedSlot
missed_slot block [] = []
missed_slot block (first ∷ rest) =
    if first == block.signer
    then []
    else record {
      actual_proposer = block.signer;
      expected_proposer = first;
      block_number = block.number;
      time = block.timestamp;
    }
      ∷ []

-- The points behind a previous block. `before` is the list that `Write` begins with, `l` the one behind
-- `Shuffled`.
unfoldable pub points_since :
    Constants → (before l : CandidateList) → (prev block : Block) → List ℕ → List Point
unfolding slots_since empty_slots aggregate missed_slot
points_since k before l prev block addresses =
    let slots = slots_since k.block_interval prev.timestamp block.timestamp in
    recent (recent_slot k before block 1 block.signer block.timestamp)
    ∷ nodes (record {
      candidate_states = map (λ (c : Candidate). (c.master, c.active)) before.candidates;
      signer = block.signer;
      block_number = block.number;
      top = take 5 addresses;
      time = block.timestamp;
    })
    ∷ (map missed (missed_slot block addresses)
        ++ (map recent (empty_slots k l prev block addresses slots)
            ++ map aggregated (aggregate prev slots)))

unfoldable pub write_slots :
    Constants
    → Answers
    → (ℕ → ℕ)
    → CandidateList
    → Block
    → Option Block
    → List Point × CandidateList
unfolding points_since shuffled
write_slots k a hash l block none = ([], l)
write_slots k a hash l block (some prev) =
    let (addresses, l') = shuffled a hash prev l in (points_since k l l' prev block addresses, l')

-- The end of `Write`: the list is fetched again, or the owners are refreshed every second epoch.
unfoldable pub refresh_after :
    Constants → Builtins → Answers → Block → CandidateList → CandidateList
unfolding should_reset init
refresh_after k b a block l =
    if should_reset b l block
    then (init a block.id block.number l).0
    else if block.number % u32 (k.epoch_length * 2) == 0
    then refresh_owners_list a.has_repo a.owners_file l
    else l

unfoldable pub write :
    Constants → Builtins → Answers → (ℕ → ℕ) → CandidateList → Event → List Point × CandidateList
unfolding write_slots refresh_after
write k b a hash l ev =
    if ev.hayabusa_status.active
    then ([], l)
    else let (points, l') = write_slots k a hash l ev.block ev.prev in
      (points, refresh_after k b a ev.block l')
