-- ===== src/Stats/Pos/Individual/Changes.antt =====
-- What the points of the current validators tell about the changes since the parent block.
use thorflux.Base.{
  ℕ, ◌+◌, ◌<◌, ◌≡◌, refl, sym, ap, ◌∙◌, subst, ◌↔◌, inl, inr, Option, none, some, List, [], ◌∷◌,
  map, arith, ◌==◌, Bool-cases, All, u64_mod, u64,
}
use thorflux.Types.{
  Validation, StakerInformation, AddressMap, lookup, map_from, validation_map, Event,
}
use thorflux.Stats.Outcome.{◌>>=◌, done}
use thorflux.Stats.Pos.Individual.{
  status_to_string, queue_order_from, ValidatorPoint, difference, weight_change, stake_change,
  moved_exit, exit_block_change, online_change, status_change, validator_point,
  create_single_validator_stats, prev_map, individual_points, IndividualPoints,
}

abbrev pub or_else {ℓ} : {A : Type ℓ} → Option A → A → A
or_else none a = a
or_else (some b) a = b

-- `R` relates the elements of two lists pairwise, and the lists are equally long.
abbrev pub All2 {ℓ κ} : {A : Type ℓ} {B : Type κ} → (A → B → Type 0) → List A → List B → Type 0
All2 R [] [] = Unit
All2 R [] (y ∷ ys) = ⊥
All2 R (x ∷ xs) [] = ⊥
All2 R (x ∷ xs) (y ∷ ys) = R x y × All2 R xs ys

pub All2-map {ℓ κ} :
    {A : Type ℓ} {B : Type κ} (R : A → B → Type 0) (f : A → B) (xs : List A)
    → All (λ x. R x (f x)) xs
    → All2 R xs (map f xs)
All2-map R f [] h = tt
All2-map R f (x ∷ xs) h = (h.0, All2-map R f xs h.1)

-- The change of a uint64 quantity: absent exactly if there is none, and added to the value before it
-- gives the value now.
abbrev pub IsDifference : Option ℕ → (before now : ℕ) → Type 0
IsDifference change before now =
    ((change ≡ none) ↔ (before ≡ now)) × (u64 (before + or_else change 0) ≡ now)

-- What a point tells of a validation, if the parent block has the entry `prev` of its address.
abbrev pub Tells : Option Validation → Validation → ValidatorPoint → Type 0
Tells none v p =
    (p.validator ≡ v.address)
    × (p.weight_changed ≡ none)
    × (p.stake_changed ≡ none)
    × (p.exit_block_changed ≡ none)
    × (p.online_changed ≡ some v.online)
    × (p.status_changed ≡ some (status_to_string v.status))
Tells (some w) v p =
    (p.validator ≡ v.address)
    × IsDifference p.weight_changed w.weight v.weight
    × IsDifference p.stake_changed w.locked_vet v.locked_vet
    × ((before now : ℕ)
        → w.exit_block ≡ some before
        → v.exit_block ≡ some now
        → or_else p.exit_block_changed before ≡ now)
    × ((p.online_changed ≡ none) ↔ (w.online ≡ v.online))
    × (or_else p.online_changed w.online ≡ v.online)
    × ((p.status_changed ≡ none) ↔ (w.status ≡ v.status))
    × (or_else p.status_changed (status_to_string w.status) ≡ status_to_string v.status)

difference-IsDifference :
    (now before : ℕ)
    → now < u64_mod
    → before < u64_mod
    → IsDifference (difference now before) before now
unfolding difference
difference-IsDifference now before h k = ground arith

moved_exit_lem :
    (before now : ℕ) (b n : Option ℕ)
    → b ≡ some before
    → n ≡ some now
    → or_else (moved_exit b n) before ≡ now
unfolding moved_exit
moved_exit_lem before now none n h k = cc
moved_exit_lem before now (some a) none h k = cc
moved_exit_lem before now (some a) (some c) h k = ground arith

online_lem :
    (w v : Validation)
    → ((online_change (some w) v ≡ none) ↔ (w.online ≡ v.online))
      × (or_else (online_change (some w) v) w.online ≡ v.online)
unfolding online_change
online_lem w v = ground arith

status_lem :
    (w v : Validation)
    → ((status_change (some w) v ≡ none) ↔ (w.status ≡ v.status))
      × (or_else (status_change (some w) v) (status_to_string w.status) ≡ status_to_string v.status)
unfolding status_change
status_lem w v = ground arith

abbrev pub IsUint64 : Validation → Type 0
IsUint64 v = (v.weight < u64_mod) × (v.locked_vet < u64_mod)

validator_point-Tells :
    (number time : ℕ) (order : List (ℕ × ℕ)) (m : AddressMap) (prev : Option Validation)
    (v : Validation)
    → lookup v.address m ≡ prev
    → ((w : Validation) → prev ≡ some w → IsUint64 w)
    → IsUint64 v
    → Tells prev v (validator_point number time order m v)
unfolding validator_point weight_change stake_change exit_block_change
validator_point-Tells number time order m none v found before now =
    unfold online_change status_change in rw found (refl, refl, refl, refl, refl, refl)
validator_point-Tells number time order m (some w) v found before now =
    let fits = before w refl in
    rw found (
      refl,
      difference-IsDifference v.weight w.weight now.0 fits.0,
      difference-IsDifference v.locked_vet w.locked_vet now.1 fits.1,
      (λ a b h k. moved_exit_lem a b w.exit_block v.exit_block h k),
      (online_lem w v).0,
      (online_lem w v).1,
      (status_lem w v).0,
      (status_lem w v).1,
    )

-- Whatever holds of all validations holds of the entries of their map.
lookup-map_from :
    (P : Validation → Type 0) (m : AddressMap) (vs : List Validation) (k : ℕ) (w : Validation)
    → ((u : Validation) → lookup k m ≡ some u → P u)
    → All P vs
    → lookup k (map_from m vs) ≡ some w
    → P w
unfolding map_from lookup
lookup-map_from P m [] k w h a found = h w found
lookup-map_from P m (v ∷ vs) k w h a found =
    lookup-map_from P ((v.address, v) ∷ m) vs k w (written) a.1 found
  where
    written : (u : Validation) → lookup k ((v.address, v) ∷ m) ≡ some u → P u
    written u e = elim (Bool-cases (v.address == k)) [
      | inl s ↦ subst P (ground arith) a.0
      | inr s ↦ h u (ground arith)
    ]

abbrev pub validations_of : Option StakerInformation → List Validation
validations_of none = []
validations_of (some s) = s.validations

pub prev_map-validation_map :
    (parent : Option StakerInformation) → prev_map parent ≡ validation_map (validations_of parent)
unfolding prev_map validation_map map_from
prev_map-validation_map none = refl
prev_map-validation_map (some s) = refl

lookup-IsUint64 :
    (vs : List Validation) (k : ℕ) (w : Validation)
    → All IsUint64 vs
    → lookup k (validation_map vs) ≡ some w
    → IsUint64 w
unfolding validation_map
lookup-IsUint64 vs k w h found =
    lookup-map_from IsUint64 [] vs k w (λ u e. unfold lookup in cc) h found

points-Tell :
    (number time : ℕ) (order : List (ℕ × ℕ)) (m : AddressMap) (vs : List Validation)
    → ((k : ℕ) (w : Validation) → lookup k m ≡ some w → IsUint64 w)
    → All IsUint64 vs
    → All
        (λ (v : Validation). Tells (lookup v.address m) v (validator_point number time order m v))
        vs
points-Tell number time order m [] h a = tt
points-Tell number time order m (v ∷ vs) h a = (
  validator_point-Tells number time order m (lookup v.address m) v refl (h v.address) a.0,
  points-Tell number time order m vs h a.1,
)

-- Where the block has staker information, and all weights and locked stakes are uint64 values: the
-- points of the current validators come one for each validation, in order. For a validation whose
-- address the parent block does not have, the online and the status change are its own and no other
-- change is written. For one that it has, the changes of weight, locked stake, online flag and status
-- are written exactly where the two blocks differ, and with the values of the parent block they give the
-- values now, on uint64; if both have an exit block, the exit change gives the one now.
pub create_single_validator_stats-Tells :
    (range : AddressMap → AddressMap) (ev : Event) (info staker : StakerInformation)
    → ev.staker ≡ some staker
    → All IsUint64 (validations_of ev.parent_staker)
    → All IsUint64 info.validations
    → (points : IndividualPoints) × (create_single_validator_stats range ev info ≡ done points)
      × All2
          (λ (v : Validation) (p : ValidatorPoint).
            Tells (lookup v.address (validation_map (validations_of ev.parent_staker))) v p)
          info.validations
          points.validators
unfolding create_single_validator_stats individual_points ◌>>=◌
create_single_validator_stats-Tells range ev info staker present before now =
    let m = prev_map ev.parent_staker in
    let order = queue_order_from [] 0 info.validations in
    let same = prev_map-validation_map ev.parent_staker in
    let fits : (k : ℕ) (w : Validation) → lookup k m ≡ some w → IsUint64 w =
      λ k w found. lookup-IsUint64 _ k w before (ap (lookup k) (sym same) ∙ found) in
    (
      individual_points range ev info staker,
      simp present refl,
      subst
          (λ n.
            All2 (λ (v : Validation) (p : ValidatorPoint). Tells (lookup v.address n) v p)
              info.validations
              (map (validator_point ev.block.number ev.timestamp order m) info.validations))
          same
          (All2-map _ _ info.validations
            (points-Tell ev.block.number ev.timestamp order m info.validations fits now)),
    )
