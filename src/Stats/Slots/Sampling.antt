-- ===== src/Stats/Slots/Sampling.antt =====
-- The order of the proposers in stats/slots/calculator.go.
use thorflux.Base.{
  ℕ, zero, suc, ◌+◌, ◌≤◌, ◌<◌, min, ◌≡◌, refl, sym, ap, ◌∙◌, subst, inl, inr, Bool, true, not, ◌&&◌,
  ◌||◌, some, List, [], ◌∷◌, map, arith, ◌==◌, if◌then◌else◌, Bool-cases, length, get_elem?, take,
  select, All, length-map, Any, All-mono,
}
use thorflux.Base.Sorting.{
  sort_by, key_lt, IsOrder, IsAscending, sort_by-perm, sort_by-IsAscending, key_lt-IsOrder,
  select-sort_by, map-sort_by, length-sort_by, All-sort_by,
}
use mathlib.Core.List.{Perm}
use mathlib.Core.List.Perm
use thorflux.Types.{AuthorityNode}
use thorflux.Stats.Authority.{Candidate, shuffle_candidates}
use thorflux.Stats.Slots.{
  FutureProposer, PosNode, proposers_from, max_count, shuffle_authority_nodes,
  next_block_proposers_poa, Floats, entries_from, sorted_entries, shuffle_pos_nodes,
  next_block_proposers_pos, to_authority_node,
}

-- i + 1, i + 2, ... of the given length.
abbrev pub positions : ℕ → ℕ → List ℕ
positions zero i = []
positions (suc n) i = (i + 1) ∷ positions n (i + 1)

proposers_from_lem :
    (n i : ℕ) (nodes : List AuthorityNode)
    → n ≤ length nodes
    → (map (λ (p : FutureProposer). p.node) (proposers_from n i nodes) ≡ take n nodes)
      × (map (λ (p : FutureProposer). p.position) (proposers_from n i nodes) ≡ positions n i)
unfolding proposers_from
proposers_from_lem zero i nodes h = (refl, refl)
proposers_from_lem (suc n) i [] h = absurd (ground arith)
proposers_from_lem (suc n) i (x ∷ nodes) h =
    let (taken, placed) = proposers_from_lem n (i + 1) nodes (omega arith) in
    (ap (λ l. x ∷ l) taken, ap (λ l. (i + 1) ∷ l) placed)

max_count-min : {A : Type 0} (n : ℕ) (xs : List A) → max_count n xs ≡ min n (length xs)
unfolding max_count
max_count-min n xs = ground arith

shuffle_authority_nodes-perm :
    (hash : ℕ → ℕ) (nodes : List AuthorityNode)
    → (length (shuffle_authority_nodes hash nodes) ≡ length nodes)
      × Perm (shuffle_authority_nodes hash nodes) nodes
unfolding shuffle_authority_nodes
shuffle_authority_nodes-perm hash nodes = (length-sort_by _ nodes, sort_by-perm _ nodes)

-- The next proposers of the authority nodes are the first ones by ascending hash, as many as are
-- asked for or as there are, at the positions 1, 2 and so on.
pub next_block_proposers_poa-ranks :
    (hash : ℕ → ℕ) (nodes : List AuthorityNode) (n : ℕ)
    → let proposers = next_block_proposers_poa hash nodes n in
      let shuffled = shuffle_authority_nodes hash nodes in
      (map (λ (p : FutureProposer). p.node) proposers ≡ take (min n (length nodes)) shuffled)
      × (map (λ (p : FutureProposer). p.position) proposers ≡ positions (min n (length nodes)) 0)
      × Perm shuffled nodes
unfolding next_block_proposers_poa
next_block_proposers_poa-ranks hash nodes n =
    let shuffled = shuffle_authority_nodes hash nodes in
    let counted : max_count n shuffled ≡ min n (length nodes) =
      max_count-min n shuffled ∙ ap (λ k. min n k) (shuffle_authority_nodes-perm hash nodes).0 in
    rw counted (
      let (taken, placed) =
        proposers_from_lem (min n (length nodes)) 0 shuffled
          (rw (shuffle_authority_nodes-perm hash nodes).0 (omega arith)) in
      (taken, placed, (shuffle_authority_nodes-perm hash nodes).1))

abbrev pub node_of : Candidate → AuthorityNode
node_of c = record { master = c.master; endorsor = c.endorsor; active = c.active }

masters-active :
    (cs : List Candidate)
    → map
        (λ (n : AuthorityNode). n.master)
        (select (λ (n : AuthorityNode). n.active) (map node_of cs))
      ≡ map (λ (c : Candidate). c.master) (select (λ (c : Candidate). c.active) cs)
masters-active [] = refl
masters-active (c ∷ cs) = elim (Bool-cases c.active) [
  | inl h ↦ rw h (ap (λ l. c.master ∷ l) (masters-active cs))
  | inr h ↦ rw h (masters-active cs)
]

masters_in_order :
    (hash : ℕ → ℕ) (cs : List Candidate)
    → map
        (λ (n : AuthorityNode). n.master)
        (select (λ (n : AuthorityNode). n.active) (shuffle_authority_nodes hash (map node_of cs)))
      ≡ shuffle_candidates hash cs
unfolding shuffle_authority_nodes shuffle_candidates
masters_in_order hash cs =
    ap (map (λ (n : AuthorityNode). n.master)) (
      select-sort_by (key_lt-IsOrder (λ (n : AuthorityNode). hash n.master)) (λ n. n.active)
        (map node_of cs))
    ∙ map-sort_by (λ (n : AuthorityNode). n.master) (key_lt hash)
        (select (λ (n : AuthorityNode). n.active) (map node_of cs))
    ∙ ap (sort_by (key_lt hash)) (masters-active cs)

-- The shuffled nodes are all nodes, the inactive ones among them, each as often as before and by
-- ascending hash of their masters. Without the inactive ones, their masters are in the order that the
-- authority package gives the same candidates.
pub shuffle_authority_nodes-active :
    (hash : ℕ → ℕ) (cs : List Candidate)
    → let shuffled = shuffle_authority_nodes hash (map node_of cs) in
      Perm shuffled (map node_of cs)
      × IsAscending (key_lt (λ (n : AuthorityNode). hash n.master)) shuffled
      × (map (λ (n : AuthorityNode). n.master) (select (λ (n : AuthorityNode). n.active) shuffled)
          ≡ shuffle_candidates hash cs)
unfolding shuffle_authority_nodes
shuffle_authority_nodes-active hash cs = (
  (shuffle_authority_nodes-perm hash (map node_of cs)).1,
  sort_by-IsAscending (key_lt-IsOrder (λ (n : AuthorityNode). hash n.master)) (map node_of cs),
  masters_in_order hash cs,
)

-- The nodes that take part: active, with a weight.
abbrev pub is_eligible : PosNode → Bool
is_eligible n = n.active && not (n.weight == 0)

entries_from-nodes :
    {F : Type 0} (fl : Floats F) (i : ℕ) (ns : List PosNode)
    → map (λ e. e.0) (entries_from fl i ns) ≡ select is_eligible ns
unfolding entries_from
entries_from-nodes fl i [] = refl
entries_from-nodes fl i (n ∷ ns) =
    let rest = entries_from-nodes fl (i + 1) ns in
    elim (Bool-cases n.active) [
      | inl h ↦ elim (Bool-cases (n.weight == 0)) [
        | inl z ↦ simp (h, z) rest
        | inr z ↦ simp (h, z) (ap (λ l. n ∷ l) rest)
      ]
      | inr h ↦ simp h rest
    ]

-- The i-th number that is drawn, and the score that it gives a node.
abbrev pub score_at : {F : Type 0} → Floats F → ℕ → PosNode → F
score_at fl i n = fl.score (if fl.is_zero (fl.draw i) then fl.tiny else fl.draw i) n.weight

-- A node with the score of its place in the list, which begins with the i-th draw.
abbrev pub IsScored : {F : Type 0} → Floats F → ℕ → List PosNode → PosNode × F → Type 0
IsScored fl i ns e = (j : ℕ) × (get_elem? ns j ≡ some e.0) × (e.1 ≡ score_at fl (i + j) e.0)

add_zero : (i : ℕ) → i ≡ i + 0
add_zero i = omega arith

IsScored-later :
    {F : Type 0} (fl : Floats F) (i : ℕ) (n : PosNode) (ns : List PosNode) (e : PosNode × F)
    → IsScored fl (i + 1) ns e
    → IsScored fl i (n ∷ ns) e
IsScored-later fl i n ns e (j, at_j, scored) =
    let same : i + 1 + j ≡ i + suc j = omega arith in
    (suc j, at_j, scored ∙ ap (λ k. score_at fl k e.0) same)

entries_from-IsScored :
    {F : Type 0} (fl : Floats F) (i : ℕ) (ns : List PosNode)
    → All (IsScored fl i ns) (entries_from fl i ns)
unfolding entries_from
entries_from-IsScored fl i [] = tt
entries_from-IsScored fl i (n ∷ ns) =
    let rest =
      All-mono (IsScored fl (i + 1) ns) (IsScored fl i (n ∷ ns)) (IsScored-later fl i n ns) _
        (entries_from-IsScored fl (i + 1) ns) in
    elim (Bool-cases (not n.active || (n.weight == 0))) [
      | inl h ↦ simp h rest
      | inr h ↦ simp h ((0, refl, ap (λ k. score_at fl k n) (add_zero i)), rest)
    ]

-- Weighted sampling keeps each active node of positive weight once, by ascending score, if the numbers
-- are ordered; a node's score comes from the number drawn for its own place, whether or not a node
-- before it is left out.
shuffle_pos_nodes_lem :
    {F : Type 0} (fl : Floats F) (ns : List PosNode)
    → IsOrder (λ (a b : PosNode × F). fl.lt a.1 b.1)
    → Perm (shuffle_pos_nodes fl ns) (select is_eligible ns)
      × ((es : List (PosNode × F)) × (map (λ e. e.0) es ≡ shuffle_pos_nodes fl ns)
          × IsAscending (λ (a b : PosNode × F). fl.lt a.1 b.1) es
          × All (IsScored fl 0 ns) es)
unfolding shuffle_pos_nodes sorted_entries
shuffle_pos_nodes_lem fl ns o = (
  subst (λ l. Perm (map (λ e. e.0) (sorted_entries fl ns)) l) (entries_from-nodes fl 0 ns)
      (Perm.map (λ e. e.0) (sort_by-perm _ (entries_from fl 0 ns))),
  (
    sorted_entries fl ns,
    refl,
    sort_by-IsAscending o (entries_from fl 0 ns),
    All-sort_by o (IsScored fl 0 ns) (entries_from fl 0 ns) (entries_from-IsScored fl 0 ns),
  ),
)

select_some :
    {A : Type 0} (p : A → Bool) (xs : List A) → Any (λ x. p x ≡ true) xs → 0 < length (select p xs)
select_some p [] h = elim h [ ]
select_some p (x ∷ xs) (inl h) = rw h (omega arith)
select_some p (x ∷ xs) (inr h) = elim (Bool-cases (p x)) [
  | inl e ↦ rw e (omega arith)
  | inr e ↦ rw e (select_some p xs h)
]

proposers_from_some :
    (m i : ℕ) (nodes : List AuthorityNode)
    → 0 < m
    → 0 < length nodes
    → (p : FutureProposer) × (ps : List FutureProposer) × (proposers_from m i nodes ≡ p ∷ ps)
unfolding proposers_from
proposers_from_some zero i nodes pos some_node = absurd (omega arith)
proposers_from_some (suc m) i [] pos some_node = absurd (omega arith)
proposers_from_some (suc m) i (x ∷ nodes) pos some_node = (_, _, refl)

-- A node that takes part leaves at least one proposer, if one is asked for.
pub next_block_proposers_pos-some :
    {F : Type 0} (fl : Floats F) (ns : List PosNode) (n : ℕ)
    → Any (λ x. is_eligible x ≡ true) ns
    → (p : FutureProposer) × (ps : List FutureProposer) × (next_block_proposers_pos fl ns (suc n)
        ≡ p ∷ ps)
unfolding next_block_proposers_pos shuffle_pos_nodes sorted_entries max_count
next_block_proposers_pos-some fl ns n h =
    let shuffled = shuffle_pos_nodes fl ns in
    let entries = entries_from fl 0 ns in
    let kept : length entries ≡ length (select is_eligible ns) =
      sym (length-map (λ e. e.0) entries) ∙ ap length (entries_from-nodes fl 0 ns) in
    let sorted : length (sorted_entries fl ns) ≡ length entries = length-sort_by _ entries in
    let mapped : length shuffled ≡ length (sorted_entries fl ns) = length-map _ _ in
    let converted : length (map to_authority_node shuffled) ≡ length shuffled = length-map _ _ in
    let some_left = select_some is_eligible ns h in
    proposers_from_some (max_count (suc n) shuffled) 0 (map to_authority_node shuffled)
      (ground arith) (omega arith)
