-- ===== src/Stats/Slots/Written.antt =====
-- What stats/slots/writer.go writes for an event, and when it panics.
use thorflux.Base.{
  ℕ, zero, suc, ◌+◌, ◌≤◌, ◌<◌, min, ◌≡◌, refl, sym, ap, ◌∙◌, ◌≢◌, ◌↔◌, inl, inr, true, false, none,
  some, List, [], ◌∷◌, arith, ◌==◌, Bool-cases, Option-cases, length, get_elem?, All, count,
  length-map, length-take, sub32,
}
use thorflux.Types.{
  AuthorityNode, get_active_nodes, get_active_count, active_count_from, StakerInformation, Event,
}
use thorflux.Chain.{Block}
use thorflux.Stats.Slots.{
  FutureProposer, proposers_from, max_count, shuffle_authority_nodes, next_block_proposers_poa,
  Shuffling, Proposers, with_expected, calculate_poa_proposers, SlotPoint, slot_points,
  weight_millions, write_pos, write_poa, write_at, write,
}
use thorflux.Base.Sorting.{length-sort_by}
use thorflux.Stats.Slots.{no_proposers}
use thorflux.Types.{validation_map}
use thorflux.Stats.Slots.{calculate_pos_proposers}
use thorflux.Stats.Slots.Sampling.{next_block_proposers_poa-ranks}

length-get_active_nodes-le :
    (nodes : List AuthorityNode) → length (get_active_nodes nodes) ≤ length nodes
unfolding get_active_nodes
length-get_active_nodes-le [] = omega arith
length-get_active_nodes-le (n ∷ nodes) = ground (arith, length-get_active_nodes-le nodes)

active_count_from-length :
    (count : ℕ) (nodes : List AuthorityNode)
    → active_count_from count nodes ≡ count + length (get_active_nodes nodes)
unfolding active_count_from get_active_nodes
active_count_from-length count [] = omega arith
active_count_from-length count (n ∷ nodes) = elim (Bool-cases n.active) [
  | inl h ↦ simp h (active_count_from-length (count + 1) nodes ∙ omega arith)
  | inr h ↦ simp h (active_count_from-length count nodes)
]

get_active_count-length :
    (nodes : List AuthorityNode) → get_active_count nodes ≡ length (get_active_nodes nodes)
unfolding get_active_count
get_active_count-length nodes = active_count_from-length 0 nodes ∙ omega arith

length-shuffle_authority_nodes :
    (hash : ℕ → ℕ) (nodes : List AuthorityNode)
    → length (shuffle_authority_nodes hash nodes) ≡ length nodes
unfolding shuffle_authority_nodes
length-shuffle_authority_nodes hash nodes = length-sort_by _ nodes

length-next_block_proposers_poa :
    (hash : ℕ → ℕ) (nodes : List AuthorityNode) (n : ℕ)
    → length (next_block_proposers_poa hash nodes n) ≡ min n (length nodes)
length-next_block_proposers_poa hash nodes n =
    let shuffled = shuffle_authority_nodes hash nodes in
    let (taken, placed, perm) = next_block_proposers_poa-ranks hash nodes n in
    let sorted : length shuffled ≡ length nodes = length-shuffle_authority_nodes hash nodes in
    sym (length-map (λ (p : FutureProposer). p.node) (next_block_proposers_poa hash nodes n))
    ∙ ap length taken
    ∙ length-take (min n (length nodes)) shuffled
    ∙ omega arith

proposers_from_first :
    (m i : ℕ) (shuffled : List AuthorityNode)
    → 0 < m
    → 0 < length shuffled
    → (e : FutureProposer) × (es : List FutureProposer) × (proposers_from m i shuffled ≡ e ∷ es)
      × (get_elem? shuffled 0 ≡ some e.node)
unfolding proposers_from
proposers_from_first zero i shuffled pos some_node = absurd (ground arith)
proposers_from_first (suc m) i [] pos some_node = absurd (ground arith)
proposers_from_first (suc m) i (x ∷ shuffled) pos some_node = (_, _, refl, refl)

-- The list of proposers is not empty if nodes and a number are given.
proposers_poa_first :
    (hash : ℕ → ℕ) (nodes : List AuthorityNode) (n : ℕ)
    → 0 < n
    → 0 < length nodes
    → (e : FutureProposer) × (es : List FutureProposer) × (next_block_proposers_poa hash nodes n
        ≡ e ∷ es)
      × (get_elem? (shuffle_authority_nodes hash nodes) 0 ≡ some e.node)
unfolding next_block_proposers_poa max_count shuffle_authority_nodes
proposers_poa_first hash nodes n pos some_node =
    let shuffled = shuffle_authority_nodes hash nodes in
    let counted : length shuffled ≡ length nodes = length-sort_by _ nodes in
    proposers_from_first (max_count n shuffled) 0 shuffled (ground arith) (omega arith)

-- What the PoA branch computes behind active parent nodes.
calculate_poa_proposers_active :
    {F : Type 0} (sh : Shuffling F) (n : ℕ) (ev : Event)
    → 0 < n
    → 0 < length (get_active_nodes ev.parent_auth_nodes)
    → (first : AuthorityNode) × (get_elem?
          (shuffle_authority_nodes (sh.hash ev.seed (sub32 ev.block.number 1)) ev.parent_auth_nodes)
          0
        ≡ some first)
      × (calculate_poa_proposers sh n ev
          ≡ some (record {
            future =
                next_block_proposers_poa (sh.hash ev.future_seed ev.block.number) ev.auth_nodes n;
            expected = first.master;
            active_count = get_active_count ev.auth_nodes;
          }))
unfolding calculate_poa_proposers with_expected
calculate_poa_proposers_active sh n ev pos active =
    let hash = sh.hash ev.seed (sub32 ev.block.number 1) in
    let fits = length-get_active_nodes-le ev.parent_auth_nodes in
    let (e, es, listed, first) =
      proposers_poa_first hash ev.parent_auth_nodes n pos (omega arith) in
    let kept : (length (get_active_nodes ev.parent_auth_nodes) == 0) ≡ false = ground arith in
    (e.node, first, rw (kept, listed) refl)

calculate_poa_proposers-some :
    {F : Type 0} (sh : Shuffling F) (n : ℕ) (ev : Event)
    → 0 < n
    → (ps : Proposers) × (calculate_poa_proposers sh n ev ≡ some ps)
unfolding calculate_poa_proposers
calculate_poa_proposers-some sh n ev pos =
    elim (Bool-cases (length (get_active_nodes ev.parent_auth_nodes) == 0)) [
      | inl h ↦ (no_proposers, rw h refl)
      | inr h ↦
          let (first, taken, result) = calculate_poa_proposers_active sh n ev pos (ground arith) in
          (_, result)
    ]

module _ {F : Type 0} (sh : Shuffling F) (n : ℕ) (ev : Event) where
  write_genesis : ev.prev ≡ none → write sh n ev ≡ some []
  unfolding write write_at
  write_genesis h = rw h refl

  write_before_pos :
      (prev : Block) (ps : Proposers)
      → ev.prev ≡ some prev
      → ev.hayabusa_status.active ≡ false
      → calculate_poa_proposers sh n ev ≡ some ps
      → write sh n ev ≡ some (slot_points ev [] ps)
  unfolding write write_at write_poa
  write_before_pos prev ps h a e = rw (h, a, e) refl

  write_with_staker :
      (prev : Block) (s : StakerInformation)
      → ev.prev ≡ some prev
      → ev.hayabusa_status.active ≡ true
      → ev.staker ≡ some s
      → write sh n ev
        ≡ some (
            slot_points ev
              (validation_map s.validations)
              (calculate_pos_proposers sh n ev (some s)))
  unfolding write write_at write_pos
  write_with_staker prev s h a e = rw (h, a, e) refl

  write_no_staker :
      (prev : Block)
      → ev.prev ≡ some prev
      → ev.hayabusa_status.active ≡ true
      → ev.staker ≡ none
      → write sh n ev ≡ none
  unfolding write write_at write_pos
  write_no_staker prev h a e = rw (h, a, e) refl

-- The writer panics exactly at an event with a previous block and with PoS but without staker
-- information, if it is asked for at least one proposer.
pub write-panics_iff :
    {F : Type 0} (sh : Shuffling F) (n : ℕ) (ev : Event)
    → 0 < n
    → (write sh n ev ≡ none)
      ↔ ((ev.prev ≢ none) × (ev.hayabusa_status.active ≡ true) × (ev.staker ≡ none))
write-panics_iff sh n ev pos = elim (Option-cases ev.prev) [
  | inl h ↦ let written = write_genesis sh n ev h in ((λ w. absurd (cc)), (λ x. absurd (x.0 h)))
  | inr (prev, h) ↦ elim (Bool-cases ev.hayabusa_status.active) [
    | inl a ↦ elim (Option-cases ev.staker) [
      | inl e ↦ ((λ w. ((λ z. absurd (cc)), a, e)), (λ x. write_no_staker sh n ev prev h a e))
      | inr (s, e) ↦
          let written = write_with_staker sh n ev prev s h a e in
          ((λ w. absurd (cc)), (λ x. let nil = x.2 in absurd (cc)))
    ]
    | inr a ↦
        let (ps, computed) = calculate_poa_proposers-some sh n ev pos in
        let written = write_before_pos sh n ev prev ps h a computed in
        ((λ w. absurd (cc)), (λ x. let pos = x.1 in absurd (cc)))
  ]
]

All-slot_points :
    (ev : Event) (expected active_count m : ℕ)
    → active_count ≡ m
    → ev.hayabusa_status.active ≡ false
    → (future : List FutureProposer)
    → All
        (λ (p : SlotPoint).
          (p.expected_block_signer ≡ expected) × (p.total_active_nodes ≡ m) × (p.weight ≡ 25))
        (slot_points ev []
          (record { future = future; expected = expected; active_count = active_count }))
unfolding slot_points weight_millions
All-slot_points ev expected active_count m same poa [] = tt
All-slot_points ev expected active_count m same poa (p ∷ future) =
    ((refl, same, rw poa refl), All-slot_points ev expected active_count m same poa future)

-- Before PoS, behind a previous block, with an active parent node and a positive number asked for,
-- a point is written for each of the next proposers. It names as expected signer the parent node
-- that comes first by the hash of the previous number, it counts the active nodes, and its weight
-- is 25.
write-poa :
    {F : Type 0} (sh : Shuffling F) (n : ℕ) (ev : Event) (prev : Block)
    → 0 < n
    → ev.prev ≡ some prev
    → ev.hayabusa_status.active ≡ false
    → 0 < length (get_active_nodes ev.parent_auth_nodes)
    → (first : AuthorityNode) × (points : List SlotPoint) × (write sh n ev ≡ some points)
      × (length points ≡ min n (length ev.auth_nodes))
      × (get_elem?
            (shuffle_authority_nodes
              (sh.hash ev.seed (sub32 ev.block.number 1))
              ev.parent_auth_nodes)
            0
          ≡ some first)
      × All
          (λ (p : SlotPoint).
            (p.expected_block_signer ≡ first.master)
            × (p.total_active_nodes ≡ length (get_active_nodes ev.auth_nodes))
            × (p.weight ≡ 25))
          points
unfolding slot_points
write-poa sh n ev prev pos has_prev poa active =
    let (first, taken, computed) = calculate_poa_proposers_active sh n ev pos active in
    let hash = sh.hash ev.future_seed ev.block.number in
    let counted = length-next_block_proposers_poa hash ev.auth_nodes n in
    (
      first,
      _,
      write_before_pos sh n ev prev _ has_prev poa computed,
      length-map _ _ ∙ counted,
      taken,
      All-slot_points ev first.master _ _ (get_active_count-length ev.auth_nodes) poa
          (next_block_proposers_poa hash ev.auth_nodes n),
    )
