-- ===== src/Stats/Pos/Individual/Queue.antt =====
-- The positions of the queued validators.
use thorflux.Base.{
  ℕ, ◌+◌, ◌≡◌, refl, ap, ◌∙◌, ◌≢◌, inl, inr, true, false, none, some, List, [], ◌∷◌, map, arith,
  ◌==◌, if◌then◌else◌, Bool-cases, All,
}
use thorflux.Types.{Validation, StakerInformation, AddressMap, Event}
use thorflux.Stats.Outcome.{◌>>=◌, done}
use thorflux.Stats.Pos.Individual.{
  is_queued, queue_order_from, position_of, ValidatorPoint, validator_point, IndividualPoints,
  individual_points, create_single_validator_stats, prev_map,
}

-- No two validations have the same address.
abbrev pub IsApart : List Validation → Type 0
IsApart [] = Unit
IsApart (v ∷ vs) = All (λ (w : Validation). v.address ≢ w.address) vs × IsApart vs

-- The points of the queued validations are numbered from `n` on, the others have no number.
abbrev pub IsQueue : ℕ → List Validation → List ValidatorPoint → Type 0
IsQueue n [] [] = Unit
IsQueue n [] (p ∷ ps) = ⊥
IsQueue n (v ∷ vs) [] = ⊥
IsQueue n (v ∷ vs) (p ∷ ps) =
    (p.queue_position ≡ (if is_queued v.status then some n else none))
    × IsQueue (if is_queued v.status then n + 1 else n) vs ps

position_of-queue_order_from :
    (m : List (ℕ × ℕ)) (n : ℕ) (vs : List Validation) (a : ℕ)
    → All (λ (w : Validation). a ≢ w.address) vs
    → position_of a (queue_order_from m n vs) ≡ position_of a m
unfolding queue_order_from position_of
position_of-queue_order_from m n [] a h = refl
position_of-queue_order_from m n (v ∷ vs) a h = elim (Bool-cases (is_queued v.status)) [
  | inl q ↦
      let other : (v.address == a) ≡ false = ground (arith, h.0) in
      rw q (position_of-queue_order_from ((v.address, n) ∷ m) (n + 1) vs a h.1 ∙ rw other refl)
  | inr q ↦ rw q (position_of-queue_order_from m n vs a h.1)
]

points-IsQueue :
    (number time : ℕ) (prev : AddressMap) (m order : List (ℕ × ℕ)) (n : ℕ) (vs : List Validation)
    → order ≡ queue_order_from m n vs
    → IsApart vs
    → IsQueue n vs (map (validator_point number time order prev) vs)
unfolding queue_order_from validator_point position_of
points-IsQueue number time prev m order n [] e h = tt
points-IsQueue number time prev m order n (v ∷ vs) e h = elim (Bool-cases (is_queued v.status)) [
  | inl q ↦
      let own : (v.address == v.address) ≡ true = ground arith in
      let kept = position_of-queue_order_from ((v.address, n) ∷ m) (n + 1) vs v.address h.0 in
      let later : order ≡ queue_order_from ((v.address, n) ∷ m) (n + 1) vs = rw q at e in
      let number_own = ap (position_of v.address) later ∙ kept ∙ rw own refl in
      let rest = points-IsQueue number time prev ((v.address, n) ∷ m) order (n + 1) vs later h.1 in
      rw q (ap some number_own, rest)
  | inr q ↦ rw q (refl, points-IsQueue number time prev m order n vs (rw q at e) h.1)
]

-- Where the block has staker information, and no two validations have the same address: the points of
-- the queued validators carry the positions 0, 1, 2 and so on in the order of the contract, and those
-- of the other validators carry none.
pub create_single_validator_stats-IsQueue :
    (range : AddressMap → AddressMap) (ev : Event) (info staker : StakerInformation)
    → ev.staker ≡ some staker
    → IsApart info.validations
    → (points : IndividualPoints) × (create_single_validator_stats range ev info ≡ done points)
      × IsQueue 0 info.validations points.validators
unfolding create_single_validator_stats individual_points ◌>>=◌
create_single_validator_stats-IsQueue range ev info staker present apart = (
  individual_points range ev info staker,
  simp present refl,
  points-IsQueue ev.block.number ev.timestamp (prev_map ev.parent_staker) []
      (queue_order_from [] 0 info.validations) 0 info.validations refl apart,
)
