-- ===== src/Stats/Slots.antt =====
-- stats/slots/calculator.go and writer.go: the next proposers and their points. blake2b and the
-- floating-point numbers with their random stream are parameters; a panic is `none`.
pub mod Blockchain
pub mod Sampling
pub mod Written
use thorflux.Base.{
  ℕ, zero, suc, ◌+◌, Bool, not, ◌||◌, Option, none, some, List, [], ◌∷◌, map, ltb, ◌==◌,
  if◌then◌else◌, length, sub32,
}
use thorflux.Base.Sorting.{sort_by, key_lt}
use thorflux.Chain.{Block}
use thorflux.Types.{
  AuthorityNode, get_active_nodes, get_active_count, Validation, StakerInformation, AddressMap,
  lookup, validation_map, Event,
}
use thorflux.VetUtil.{scale_to_vet, scale_to_million_vet}

pub record FutureProposer : Type 0 where
  pub node : AuthorityNode
  pub position : ℕ

pub record PosNode : Type 0 where
  pub master : ℕ
  pub endorsor : ℕ
  pub active : Bool
  pub weight : ℕ

unfoldable pub to_authority_node : PosNode → AuthorityNode
to_authority_node p = record { master = p.master; endorsor = p.endorsor; active = p.active }

-- The loop that fills the result, with the rounds left.
unfoldable pub proposers_from : (rounds i : ℕ) → List AuthorityNode → List FutureProposer
proposers_from zero i nodes = []
proposers_from (suc rounds) i [] = []
proposers_from (suc rounds) i (n ∷ nodes) =
    record { node = n; position = i + 1 } ∷ proposers_from rounds (i + 1) nodes

unfoldable pub max_count : {A : Type 0} → ℕ → List A → ℕ
max_count n xs = if ltb (length xs) n then length xs else n

-- `shuffleAuthorityNodes`; `hash` is blake2b of the seed, the number and an address, read as a
-- number. Nodes of equal hash stay in their order; Go leaves their order open.
unfoldable pub shuffle_authority_nodes : (ℕ → ℕ) → List AuthorityNode → List AuthorityNode
shuffle_authority_nodes hash nodes =
    sort_by (λ (a b : AuthorityNode). key_lt hash a.master b.master) nodes

unfoldable pub next_block_proposers_poa : (ℕ → ℕ) → List AuthorityNode → ℕ → List FutureProposer
unfolding shuffle_authority_nodes proposers_from max_count
next_block_proposers_poa hash nodes n =
    let shuffled = shuffle_authority_nodes hash nodes in
    proposers_from (max_count n shuffled) 0 shuffled

-- The floating-point numbers: the i-th draw of the stream, the test for zero, 1e-10,
-- -ln(random) / weight, and the order.
pub record Floats (F : Type 0) : Type 0 where
  pub draw : ℕ → F
  pub is_zero : F → Bool
  pub tiny : F
  pub score : F → ℕ → F
  pub lt : F → F → Bool

-- The loop over the nodes from the i-th on: each draws a number, also one that is left out.
unfoldable pub entries_from : {F : Type 0} → Floats F → ℕ → List PosNode → List (PosNode × F)
entries_from fl i [] = []
entries_from fl i (n ∷ ns) =
    let drawn = fl.draw i in
    let random = if fl.is_zero drawn then fl.tiny else drawn in
    let rest = entries_from fl (i + 1) ns in
    if not n.active || (n.weight == 0) then rest else (n, fl.score random n.weight) ∷ rest

unfoldable pub sorted_entries : {F : Type 0} → Floats F → List PosNode → List (PosNode × F)
unfolding entries_from
sorted_entries fl ns = sort_by (λ a b. fl.lt a.1 b.1) (entries_from fl 0 ns)

unfoldable pub shuffle_pos_nodes : {F : Type 0} → Floats F → List PosNode → List PosNode
unfolding sorted_entries
shuffle_pos_nodes fl ns = map (λ e. e.0) (sorted_entries fl ns)

unfoldable pub next_block_proposers_pos :
    {F : Type 0} → Floats F → List PosNode → ℕ → List FutureProposer
unfolding shuffle_pos_nodes proposers_from max_count to_authority_node
next_block_proposers_pos fl nodes n =
    let shuffled = shuffle_pos_nodes fl nodes in
    proposers_from (max_count n shuffled) 0 (map to_authority_node shuffled)

-- `convertStakerToPosNodes` of a staker that is not nil.
unfoldable pub pos_nodes_of : List Validation → List PosNode
pos_nodes_of [] = []
pos_nodes_of (v ∷ vs) =
    let weight = if ltb 0 v.total_locked_weight then scale_to_vet v.total_locked_weight else 0 in
    let rest = pos_nodes_of vs in
    if weight == 0
    then rest
    else record { master = v.address; endorsor = v.endorser; active = v.online; weight = weight }
      ∷ rest

unfoldable pub convert_staker_to_pos_nodes : Option StakerInformation → List PosNode
unfolding pos_nodes_of
convert_staker_to_pos_nodes none = []
convert_staker_to_pos_nodes (some s) = pos_nodes_of s.validations

-- blake2b of a seed and a number: with an address for PoA, as the seed of the stream for PoS.
pub record Shuffling (F : Type 0) : Type 0 where
  pub hash : List ℕ → ℕ → ℕ → ℕ
  pub floats : List ℕ → ℕ → Floats F

-- The proposers, the expected signer and the number of active nodes.
pub record Proposers : Type 0 where
  pub future : List FutureProposer
  pub expected : ℕ
  pub active_count : ℕ

abbrev pub no_proposers : Proposers
no_proposers = record { future = []; expected = 0; active_count = 0 }

-- `expectedBlockProposers[0].Master` panics on no proposers.
unfoldable pub with_expected : List FutureProposer → Proposers → Option Proposers
with_expected [] p = none
with_expected (e ∷ es) p = some (record p { expected = e.node.master })

unfoldable pub calculate_poa_proposers : {F : Type 0} → Shuffling F → ℕ → Event → Option Proposers
unfolding next_block_proposers_poa with_expected
calculate_poa_proposers sh n ev =
    let expected =
      next_block_proposers_poa (sh.hash ev.seed (sub32 ev.block.number 1)) ev.parent_auth_nodes n in
    if length (get_active_nodes ev.parent_auth_nodes) == 0
    then some no_proposers
    else with_expected expected (record {
      future = next_block_proposers_poa (sh.hash ev.future_seed ev.block.number) ev.auth_nodes n;
      expected = 0;
      active_count = get_active_count ev.auth_nodes;
    })

unfoldable pub expected_pos_proposers :
    {F : Type 0} → Shuffling F → Event → Option StakerInformation → List FutureProposer
unfolding next_block_proposers_pos convert_staker_to_pos_nodes
expected_pos_proposers sh ev none = []
expected_pos_proposers sh ev (some s) =
    next_block_proposers_pos (sh.floats ev.seed (sub32 ev.block.number 1))
      (convert_staker_to_pos_nodes (some s)) 1

abbrev pub first_master : List FutureProposer → ℕ
first_master [] = 0
first_master (e ∷ es) = e.node.master

unfoldable pub calculate_pos_proposers :
    {F : Type 0} → Shuffling F → ℕ → Event → Option StakerInformation → Proposers
unfolding expected_pos_proposers
calculate_pos_proposers sh n ev none = no_proposers
calculate_pos_proposers sh n ev (some s) =
    let nodes = convert_staker_to_pos_nodes (some s) in
    if length nodes == 0 then no_proposers else record {
      future = next_block_proposers_pos (sh.floats ev.future_seed ev.block.number) nodes n;
      expected = first_master (expected_pos_proposers sh ev ev.parent_staker);
      active_count = length nodes;
    }

-- A point "slots"; the weight is the number that the code converts to a float64.
pub record SlotPoint : Type 0 where
  pub authority_node : ℕ
  pub endorsor_node : ℕ
  pub current_signer : ℕ
  pub total_active_nodes : ℕ
  pub weight : ℕ
  pub expected_block_signer : ℕ
  pub block_number : ℕ
  pub position : ℕ
  pub pos_active : Bool
  pub time : ℕ

abbrev pub millions_or : ℕ → Option Validation → ℕ
millions_or default none = default
millions_or default (some v) = scale_to_million_vet v.total_locked_weight

-- `validations` is the map behind the PoS branch, or the empty one.
unfoldable pub weight_millions : (active : Bool) → AddressMap → ℕ → ℕ
weight_millions active validations master =
    if active then millions_or 25 (lookup master validations) else 25

unfoldable pub slot_points : Event → AddressMap → Proposers → List SlotPoint
unfolding weight_millions
slot_points ev validations ps =
    map
      (λ (p : FutureProposer). record {
        authority_node = p.node.master;
        endorsor_node = p.node.endorsor;
        current_signer = ev.block.signer;
        total_active_nodes = ps.active_count;
        weight = weight_millions ev.hayabusa_status.active validations p.node.master;
        expected_block_signer = ps.expected;
        block_number = ev.block.number;
        position = p.position;
        pos_active = ev.hayabusa_status.active;
        time = ev.block.timestamp;
      })
      ps.future

-- The PoS branch: `event.Staker.ValidationMap()` of a nil staker panics.
unfoldable pub write_pos :
    {F : Type 0} → Shuffling F → ℕ → Event → Option StakerInformation → Option (List SlotPoint)
unfolding calculate_pos_proposers slot_points
write_pos sh n ev none = none
write_pos sh n ev (some s) =
    some (slot_points ev (validation_map s.validations) (calculate_pos_proposers sh n ev (some s)))

unfoldable pub write_poa : Event → Option Proposers → Option (List SlotPoint)
unfolding slot_points
write_poa ev none = none
write_poa ev (some ps) = some (slot_points ev [] ps)

unfoldable pub write_at :
    {F : Type 0} → Shuffling F → ℕ → Event → Option Block → Option (List SlotPoint)
unfolding write_pos write_poa calculate_poa_proposers
write_at sh n ev none = some []
write_at sh n ev (some prev) =
    if ev.hayabusa_status.active
    then write_pos sh n ev ev.staker
    else write_poa ev (calculate_poa_proposers sh n ev)

-- `Write`, with the number of proposers that the writer holds.
unfoldable pub write : {F : Type 0} → Shuffling F → ℕ → Event → Option (List SlotPoint)
unfolding write_at
write sh n ev = write_at sh n ev ev.prev
