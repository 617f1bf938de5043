-- ===== src/Stats/Pos/Individual/Exits.antt =====
-- Which validators of the parent block get a point for their exit.
use thorflux.Base.{
  ℕ, ◌+◌, ◌≡◌, refl, sym, ap, ◌∙◌, inl, inr, Bool, true, false, not, ◌&&◌, some, List, [], ◌∷◌, map,
  arith, ◌==◌, if◌then◌else◌, Bool-cases, select, count,
}
use mathlib.Core.List.{Perm, foldr}
use mathlib.Core.List.Perm
use native.Mathlib.Nat.{ℕ_set}
use thorflux.Types.{Validation, StakerInformation, AddressMap, lookup, validation_map, Event}
use thorflux.Stats.Outcome.{◌>>=◌, done}
use thorflux.Stats.Pos.{is_some}
use thorflux.Stats.Pos.Individual.{
  ExitPoint, exit_point, entries, prev_map, IndividualPoints, individual_points,
  create_single_validator_stats,
}
use thorflux.Stats.Pos.Individual.Changes.{validations_of, prev_map-validation_map}

abbrev pub key : ℕ × Validation → ℕ
key e = e.0

abbrev one_if : (a : ℕ) → ℕ → ℕ → ℕ
one_if a x n = (if a == x then 1 else 0) + n

count-foldr : (a : ℕ) (xs : List ℕ) → count a xs ≡ foldr (one_if a) 0 xs
count-foldr a [] = refl
count-foldr a (x ∷ xs) = ap (λ n. one_if a x n) (count-foldr a xs)

count-Perm : (a : ℕ) (xs ys : List ℕ) → Perm xs ys → count a xs ≡ count a ys
count-Perm a xs ys p =
    count-foldr a xs
    ∙ Perm.foldr-eq ℕ_set (one_if a) (λ x y n. ground arith) p 0
    ∙ sym (count-foldr a ys)

-- A selection by the key keeps all entries of a key or none.
count-select :
    (q : ℕ → Bool) (a : ℕ) (es : AddressMap)
    → count a (map key (select (λ e. q (key e)) es)) ≡ (if q a then count a (map key es) else 0)
count-select q a [] = ground arith
count-select q a ((k, v) ∷ es) =
    let rest = count-select q a es in
    elim (Bool-cases (q k)) [
      | inl h ↦ elim (Bool-cases (a == k)) [
        | inl e ↦
            let same : a ≡ k = ground arith in
            let kept : q a ≡ true = ap q same ∙ h in rw h (ground (arith, rest, kept))
        | inr e ↦ rw h (ground (arith, rest))
      ]
      | inr h ↦ elim (Bool-cases (a == k)) [
        | inl e ↦
            let same : a ≡ k = ground arith in
            let left : q a ≡ false = ap q same ∙ h in rw h (ground (arith, rest, left))
        | inr e ↦ rw h (ground (arith, rest))
      ]
    ]

-- Every key of a map has one entry.
count-entries :
    (a : ℕ) (m : AddressMap)
    → count a (map key (entries m)) ≡ (if is_some (lookup a m) then 1 else 0)
unfolding entries lookup
count-entries a [] = refl
count-entries a ((k, v) ∷ m) =
    let rest = count-entries a m in
    let others = count-select (λ x. not (x == k)) a (entries m) in ground (arith, rest, others)

map-validator :
    (time : ℕ) (es : AddressMap)
    → map (λ (p : ExitPoint). p.validator) (map (exit_point time) es) ≡ map key es
unfolding exit_point
map-validator time [] = refl
map-validator time ((k, v) ∷ es) = ap (◌∷◌ k) (map-validator time es)

-- Where the block has staker information, and Go visits each entry of a map once, in any order: an
-- address has one exit point if the parent block has a validator of it and the block has none, and no
-- exit point otherwise.
pub create_single_validator_stats-exits :
    (range : AddressMap → AddressMap) (ev : Event) (info staker : StakerInformation) (a : ℕ)
    → ((m : AddressMap) → Perm (range m) m)
    → ev.staker ≡ some staker
    → (points : IndividualPoints) × (create_single_validator_stats range ev info ≡ done points)
      × (count a (map (λ (p : ExitPoint). p.validator) points.exits) ≡ (
          if is_some (lookup a (validation_map (validations_of ev.parent_staker)))
            && not (is_some (lookup a (validation_map staker.validations)))
          then 1
          else 0))
unfolding create_single_validator_stats individual_points ◌>>=◌
create_single_validator_stats-exits range ev info staker a visits present =
    let now = validation_map staker.validations in
    let m = prev_map ev.parent_staker in
    let gone : ℕ → Bool = λ k. not (is_some (lookup k now)) in
    let visited = count-Perm a _ _ (Perm.map key (visits (entries m))) in
    let named = map-validator ev.timestamp (select (λ e. gone (key e)) (range (entries m))) in
    let chosen = count-select gone a (range (entries m)) in
    let entered = count-entries a m in
    (
      individual_points range ev info staker,
      simp present refl,
      ap (count a) named
          ∙ chosen
          ∙ rw (← prev_map-validation_map ev.parent_staker) (ground (arith, visited, entered)),
    )
