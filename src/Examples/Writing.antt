-- ===== src/Examples/Writing.antt =====
-- The theorems on the points that are written, at small lists of candidates and validators.
use thorflux.Base.{ℕ, ◌+◌, ◌≡◌, refl, Bool, true, false, none, some, List, [], ◌∷◌, map}
use thorflux.Base.Sorting.{sort_by, insert_by}
use thorflux.Chain.{Block, legacy, ok}
use thorflux.Types.{AuthorityNode, Event}
use thorflux.Stats.Authority.{
  Candidate, CandidateList, Builtins, Answers, has_event, has_endorsor_event, output_touches,
  output_has_event, should_reset, is_empty, shuffle_candidates,
}
use thorflux.Stats.Authority.Points.{Constants, write, slots_since}
use thorflux.Stats.Authority.Reset.{write-authority_event}
use thorflux.Stats.Slots.Sampling.{node_of}
use thorflux.Examples.Data.{block_of}

abbrev pub candidate_of : ℕ → Bool → Candidate
candidate_of master active = record {
  master = master;
  endorsor = master + 50;
  identity = 0;
  active = active;
}

abbrev pub candidates : List Candidate
candidates = candidate_of 3 true ∷ candidate_of 1 true ∷ candidate_of 2 false ∷ []

abbrev pub hash : ℕ → ℕ
hash a = a

test-shuffle_candidates : shuffle_candidates hash candidates ≡ 1 ∷ 3 ∷ []
unfolding shuffle_candidates sort_by insert_by
test-shuffle_candidates = refl

abbrev builtins : Builtins
builtins = record { authority = 5; params = 6 }

-- A block 4 with one event of a contract.
abbrev block_with : ℕ → Block
block_with contract = record (block_of 4 104 103) {
  transactions =
      record {
        tx_type = legacy;
        clause_count = 1;
        gas_price_coef = none;
        max_priority_fee = none;
        reward = none;
        outputs =
            record {
              events = record { address = contract; topics = []; payload = "" } ∷ [];
              transfers = [];
            }
            ∷ [];
      }
      ∷ [];
}

abbrev known_list : CandidateList
known_list = record { candidates = candidates; update_block = 2; owners = []; owners_repo = "" }

test-should_reset : should_reset builtins known_list (block_with 6) ≡ true
unfolding should_reset is_empty has_event has_endorsor_event output_touches output_has_event
test-should_reset = refl

abbrev constants : Constants
constants = record { epoch_length = 180; block_interval = 10 }

abbrev answers : Answers
answers = record { list_all = λ r. ok []; has_repo = false; owners_file = ok [] }

abbrev pub nodes : List AuthorityNode
nodes = map node_of candidates

abbrev pub event_at : Block → Event
event_at b = record {
  block = b;
  seed = [];
  hayabusa_status = record { active = false; forked = false };
  prev = some (block_of 3 103 102);
  timestamp = b.timestamp;
  staker = none;
  parent_staker = none;
  auth_nodes = nodes;
  parent_auth_nodes = nodes;
  future_seed = [];
}

write-authority_event_example :
    (write constants builtins answers hash known_list (event_at (block_with 5))).1.candidates
    ≡ candidates
unfolding has_event output_has_event
write-authority_event_example =
    write-authority_event constants builtins answers hash known_list (event_at (block_with 5))
      (candidate_of 3 true) (candidate_of 1 true ∷ candidate_of 2 false ∷ []) refl refl

-- Two slots were left out before a block.
test-slots_since : slots_since 10 30 60 ≡ 3
unfolding slots_since
test-slots_since = refl

abbrev pub late_block : Block
late_block = record (block_of 4 104 103) { timestamp = 60 }
