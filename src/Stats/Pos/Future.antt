-- ===== src/Stats/Pos/Future.antt =====
-- How far stats/pos/staker.go predicts the signers.
use thorflux.Base.{
  ℕ, zero, suc, ◌+◌, ◌-◌, ◌%◌, ◌<◌, ◌≡◌, refl, ap, subst, ◌≢◌, inl, inr, true, false, Option, none,
  some, List, [], ◌∷◌, arith, ◌==◌, Bool-cases, length, Any, u32_mod, u32,
}
use native.Mathlib.Nat.{mod-lt}
use thorflux.Types.{Validation, Status}
use thorflux.Stats.Slots.Sampling.{is_eligible, next_block_proposers_pos-some}
use thorflux.Stats.Pos.{is_active}
use thorflux.Chain.{Block}
use thorflux.Stats.Slots.{Floats, PosNode, FutureProposer, next_block_proposers_pos}
use thorflux.Stats.Pos.{
  FutureSlot, future_slot, cons_slot, future_slots_from, predictable_slots, future_slots,
  create_slots_proposers,
}

cons_slot-some :
    (first : Option FutureSlot) (later : Option (List FutureSlot)) {slots : List FutureSlot}
    → cons_slot first later ≡ some slots
    → (s : FutureSlot) × (rest : List FutureSlot) × (first ≡ some s)
      × (later ≡ some rest)
      × (slots ≡ s ∷ rest)
unfolding cons_slot
cons_slot-some none later h = absurd (cc)
cons_slot-some (some s) none h = absurd (cc)
cons_slot-some (some s) (some rest) h = (s, rest, refl, refl, cc)

future_slot_lem :
    (number i : ℕ) (proposers : List FutureProposer) (s : FutureSlot)
    → number + i + 1 < u32_mod
    → future_slot number i proposers ≡ some s
    → (s.block ≡ number + i + 1)
      × (s.index ≡ i + 1)
      × (p : FutureProposer) × (ps : List FutureProposer) × (proposers ≡ p ∷ ps)
      × (s.signer ≡ p.node.master)
unfolding future_slot
future_slot_lem number i [] s fits h = absurd (cc)
future_slot_lem number i (p ∷ ps) s fits h =
    let same : s ≡ record {
      block = u32 (u32 (number + i) + 1);
      signer = p.node.master;
      index = u32 (i + 1);
    } =
      cc in
    rw same (omega arith, omega arith, p, ps, refl, refl)

predictable_slots_lem :
    (epoch_length number : ℕ)
    → number % epoch_length < epoch_length
    → epoch_length < u32_mod
    → predictable_slots epoch_length number ≡ epoch_length - number % epoch_length - 1
unfolding predictable_slots
predictable_slots_lem epoch_length number small fits = omega arith

-- The slots that are predicted for the blocks behind `number`, from the distance i + 1 on: one for each
-- distance, signed by the first proposer that is drawn with the block before.
abbrev pub ArePredicted :
    {F : Type 0} → (ℕ → Floats F) → List PosNode → (number i : ℕ) → List FutureSlot → Type 0
ArePredicted draw nodes number i [] = Unit {0}
ArePredicted draw nodes number i (s ∷ slots) =
    (s.index ≡ i + 1)
    × (s.block ≡ number + s.index)
    × ((p : FutureProposer) × (ps : List FutureProposer) × (next_block_proposers_pos
            (draw (number + i)) nodes 101
          ≡ p ∷ ps)
        × (s.signer ≡ p.node.master))
    × ArePredicted draw nodes number (i + 1) slots

future_slots_from-ArePredicted :
    {F : Type 0} (floats : List ℕ → ℕ → Floats F) (nodes : List PosNode) (seed : List ℕ)
    (number rounds i : ℕ) (slots : List FutureSlot)
    → number + i + rounds < u32_mod
    → future_slots_from floats nodes seed number rounds i ≡ some slots
    → (length slots ≡ rounds) × ArePredicted (floats seed) nodes number i slots
unfolding future_slots_from
future_slots_from-ArePredicted floats nodes seed number zero i slots fits h =
    let none_left : slots ≡ [] = cc in rw none_left (refl, tt)
future_slots_from-ArePredicted floats nodes seed number (suc rounds) i slots fits h =
    let (s, rest, first, later, listed) =
      cons_slot-some (future_slot number i (next_block_proposers_pos _ nodes 101)) _ h in
    let (counted, placed) =
      future_slots_from-ArePredicted floats nodes seed number rounds (i + 1) rest (omega arith)
        later in
    let exact : u32 (number + i) ≡ number + i = omega arith in
    let first' : future_slot number i
          (next_block_proposers_pos (floats seed (number + i)) nodes 101)
        ≡ some s =
      subst
        (λ k. future_slot number i (next_block_proposers_pos (floats seed k) nodes 101) ≡ some s)
        exact first in
    let (block, index, p, ps, drawn, signed) =
      future_slot_lem number i (next_block_proposers_pos (floats seed (number + i)) nodes 101) s
        (omega arith) first' in
    rw listed (ap suc counted, (index, omega (arith, block, index), (p, ps, drawn, signed), placed))

-- A validator that takes part in the sampling.
abbrev pub IsEligible : Validation → Type 0
IsEligible v = (v.status ≡ Status.active) × (v.online ≡ true) × (0 < v.weight)

create_slots_proposers-eligible :
    (vs : List Validation)
    → Any IsEligible vs
    → Any (λ x. is_eligible x ≡ true) (create_slots_proposers vs)
unfolding create_slots_proposers is_active
create_slots_proposers-eligible [] h = elim h [ ]
create_slots_proposers-eligible (v ∷ vs) (inl (active, online, weight)) =
    let weighs : (v.weight == 0) ≡ false = ground arith in
    rw active (inl (rw (online, weighs) refl))
create_slots_proposers-eligible (v ∷ vs) (inr h) =
    let rest = create_slots_proposers-eligible vs h in
    elim (Bool-cases (is_active v.status)) [ inl e ↦ simp e (inr rest) | inr e ↦ simp e rest ]

cons_slot_total :
    (number i : ℕ) (proposers : List FutureProposer) (later : Option (List FutureSlot))
    → proposers ≢ []
    → later ≢ none
    → cons_slot (future_slot number i proposers) later ≢ none
unfolding cons_slot future_slot
cons_slot_total number i [] later some_proposer some_later h = some_proposer refl
cons_slot_total number i (p ∷ ps) none some_proposer some_later h = some_later refl
cons_slot_total number i (p ∷ ps) (some slots) some_proposer some_later h = cc

future_slots_from_total :
    {F : Type 0} (floats : List ℕ → ℕ → Floats F) (nodes : List PosNode) (seed : List ℕ)
    (number rounds i : ℕ)
    → Any (λ x. is_eligible x ≡ true) nodes
    → future_slots_from floats nodes seed number rounds i ≢ none
unfolding future_slots_from
future_slots_from_total floats nodes seed number zero i eligible = λ h. cc
future_slots_from_total floats nodes seed number (suc rounds) i eligible =
    let (p, ps, proposed) =
      next_block_proposers_pos-some (floats seed (u32 (number + i))) nodes 100 eligible in
    cons_slot_total number i _ _ (λ e. absurd (cc))
      (future_slots_from_total floats nodes seed number rounds (i + 1) eligible)

some_of : {A : Type 0} (o : Option A) → o ≢ none → (a : A) × (o ≡ some a)
some_of none h = absurd (h refl)
some_of (some a) h = (a, refl)

-- With an active validator that is online and has a weight, and if the numbers of the epoch are uint32,
-- the prediction returns one slot for each block from the next one to the last of the epoch, in order:
-- the i-th has the i-th number behind the block and the index i, and is signed by the first proposer
-- that is drawn with the seed and the number before it.
pub future_slots-epoch :
    {F : Type 0} (floats : List ℕ → ℕ → Floats F) (epoch_length : ℕ) (vs : List Validation)
    (block : Block) (seed : List ℕ)
    → Any IsEligible vs
    → 0 < epoch_length
    → block.number + epoch_length < u32_mod
    → (slots : List FutureSlot) × (future_slots floats epoch_length vs block seed ≡ some slots)
      × (length slots + 1 + block.number % epoch_length ≡ epoch_length)
      × ArePredicted (floats seed) (create_slots_proposers vs) block.number 0 slots
unfolding future_slots
future_slots-epoch floats epoch_length vs block seed eligible pos fits =
    let small : block.number % epoch_length < epoch_length = mod-lt block.number pos in
    let exact : predictable_slots epoch_length block.number
        ≡ epoch_length - block.number % epoch_length - 1 =
      predictable_slots_lem epoch_length block.number small (omega arith) in
    let nodes = create_slots_proposers vs in
    let rounds = predictable_slots epoch_length block.number in
    let total =
      future_slots_from_total floats nodes seed block.number rounds 0
        (create_slots_proposers-eligible vs eligible) in
    let (slots, returned) =
      some_of (future_slots_from floats nodes seed block.number rounds 0) total in
    let (counted, placed) =
      future_slots_from-ArePredicted floats nodes seed block.number rounds 0 slots (omega arith)
        returned in
    (slots, returned, omega arith, placed)
