-- ===== src/Stats/Pos/Written/Composed.antt =====
-- The points that `Write` of stats/pos/writer.go puts together.
use mathlib.Core.List.{append_assoc, append-nil}
use thorflux.Base.{
  ℕ, ◌/◌, String, ◌≡◌, refl, sym, ap, ◌∙◌, subst, ◌≢◌, inl, inr, true, Option, none, some, List, [],
  ◌∷◌, ◌++◌, map, Bool-cases, All,
}
use thorflux.Types.{Validation, StakerInformation, Event, lookup, validation_map}
use thorflux.Stats.Outcome.{Outcome, done, failed, panicked, ◌>>=◌, deref}
use thorflux.Stats.Pos.Energy.{EnergyPoint, create_energy_stats, with_parent, energy_since}
use thorflux.Stats.Pos.SlotPoints.{
  MissedPoint, OfflineMissedPoint, FuturePoint, SlotPoints, no_slot_points, create_slot_points,
}
use thorflux.Stats.Pos.OverviewPoint.{OverviewPoint, create_validator_overview}
use thorflux.Stats.Pos.Contract.{ContractPoint}
use thorflux.Stats.Pos.Individual.{ExitPoint, ValidatorPoint}
use thorflux.Stats.Pos.Individual.Changes.{
  All2, Tells, IsUint64, create_single_validator_stats-Tells, validations_of,
}
use thorflux.Stats.Pos.Written.{
  Writer, BlockPoints, no_block_points, create_block_points, StakerPoint, exited, individual,
  overview, energy, contract_event, event_totals, missed_slot, offline_missed_slot, future_slot,
  has_fields, valid_points, total_points, block_points, slot_points, or_logged, write_points,
  fetch_parent, with_staker, write,
}

-- The points of the current validators and of the overview, in order.
abbrev pub validators_of : List StakerPoint → List ValidatorPoint
validators_of [] = []
validators_of (exited p ∷ ps) = validators_of ps
validators_of (individual p ∷ ps) = p ∷ validators_of ps
validators_of (overview p ∷ ps) = validators_of ps
validators_of (energy p ∷ ps) = validators_of ps
validators_of (contract_event p ∷ ps) = validators_of ps
validators_of (event_totals p ∷ ps) = validators_of ps
validators_of (missed_slot p ∷ ps) = validators_of ps
validators_of (offline_missed_slot p ∷ ps) = validators_of ps
validators_of (future_slot p ∷ ps) = validators_of ps

abbrev pub overviews_of : List StakerPoint → List OverviewPoint
overviews_of [] = []
overviews_of (exited p ∷ ps) = overviews_of ps
overviews_of (individual p ∷ ps) = overviews_of ps
overviews_of (overview p ∷ ps) = p ∷ overviews_of ps
overviews_of (energy p ∷ ps) = overviews_of ps
overviews_of (contract_event p ∷ ps) = overviews_of ps
overviews_of (event_totals p ∷ ps) = overviews_of ps
overviews_of (missed_slot p ∷ ps) = overviews_of ps
overviews_of (offline_missed_slot p ∷ ps) = overviews_of ps
overviews_of (future_slot p ∷ ps) = overviews_of ps

-- The points of `xs` in front of `ys` are neither of a current validator nor of the overview.
abbrev IsBeside : List StakerPoint → Type 0
IsBeside xs =
    (ys : List StakerPoint)
    → (validators_of (xs ++ ys) ≡ validators_of ys) × (overviews_of (xs ++ ys) ≡ overviews_of ys)

exited-IsBeside : (es : List ExitPoint) → IsBeside (map exited es)
exited-IsBeside [] ys = (refl, refl)
exited-IsBeside (e ∷ es) ys = exited-IsBeside es ys

energy-IsBeside : (es : List EnergyPoint) → IsBeside (map energy es)
energy-IsBeside [] ys = (refl, refl)
energy-IsBeside (e ∷ es) ys = energy-IsBeside es ys

missed-IsBeside : (es : List MissedPoint) → IsBeside (map missed_slot es)
missed-IsBeside [] ys = (refl, refl)
missed-IsBeside (e ∷ es) ys = missed-IsBeside es ys

offline_missed-IsBeside : (es : List OfflineMissedPoint) → IsBeside (map offline_missed_slot es)
offline_missed-IsBeside [] ys = (refl, refl)
offline_missed-IsBeside (e ∷ es) ys = offline_missed-IsBeside es ys

future-alone :
    (es : List FuturePoint)
    → (validators_of (map future_slot es) ≡ []) × (overviews_of (map future_slot es) ≡ [])
future-alone [] = (refl, refl)
future-alone (e ∷ es) = future-alone es

slot_points-alone :
    (s : SlotPoints) → (validators_of (slot_points s) ≡ []) × (overviews_of (slot_points s) ≡ [])
unfolding slot_points
slot_points-alone s =
    let later = map offline_missed_slot s.offline_missed ++ map future_slot s.future in
    let (v, o) = missed-IsBeside s.missed later in
    let (v', o') = offline_missed-IsBeside s.offline_missed (map future_slot s.future) in
    let (v'', o'') = future-alone s.future in (v ∙ v' ∙ v'', o ∙ o' ∙ o'')

valid_points-IsBeside : (ps : List (Option ContractPoint)) → IsBeside (valid_points ps)
unfolding valid_points
valid_points-IsBeside [] ys = (refl, refl)
valid_points-IsBeside (none ∷ ps) ys = valid_points-IsBeside ps ys
valid_points-IsBeside (some p ∷ ps) ys = elim (Bool-cases (has_fields p.fields)) [
  | inl h ↦ rw h (valid_points-IsBeside ps ys)
  | inr h ↦ rw h (valid_points-IsBeside ps ys)
]

total_points-IsBeside : (flags : Option (List (String × ℕ))) → IsBeside (total_points flags)
unfolding total_points
total_points-IsBeside none ys = (refl, refl)
total_points-IsBeside (some flags) ys = (refl, refl)

-- Two parts beside the others are beside them together.
append-IsBeside : (xs zs : List StakerPoint) → IsBeside xs → IsBeside zs → IsBeside (xs ++ zs)
append-IsBeside xs zs h k ys =
    let (v, o) = h (zs ++ ys) in let (v', o') = k ys in rw append_assoc (v ∙ v', o ∙ o')

block_points-IsBeside : (b : BlockPoints) → IsBeside (block_points b)
unfolding block_points
block_points-IsBeside b =
    append-IsBeside (valid_points b.points) _ (valid_points-IsBeside b.points)
      (total_points-IsBeside b.event_totals)

individual_first :
    (vs : List ValidatorPoint) (ys : List StakerPoint)
    → (validators_of (map individual vs ++ ys) ≡ vs ++ validators_of ys)
      × (overviews_of (map individual vs ++ ys) ≡ overviews_of ys)
individual_first [] ys = (refl, refl)
individual_first (v ∷ vs) ys = let (a, b) = individual_first vs ys in (ap (◌∷◌ v) a, b)

or_logged_done :
    {A : Type 0} (nothing : A) (o : Outcome A)
    → o ≢ panicked
    → (a : A) × (or_logged nothing o ≡ done a)
or_logged_done nothing (done a) h = (a, refl)
or_logged_done nothing (failed e) h = (nothing, refl)
or_logged_done nothing panicked h = absurd (h refl)

create_energy_stats_done :
    (epoch_length : ℕ) (ev : Event) (info parent : StakerInformation)
    → ev.parent_staker ≡ some parent
    → (es : List EnergyPoint) × (deref (create_energy_stats epoch_length ev info) ≡ done es)
unfolding create_energy_stats with_parent
create_energy_stats_done epoch_length ev info parent h =
    elim (Bool-cases ev.hayabusa_status.active) [
      | inl a ↦ (
        energy_since (ev.block.number / epoch_length) ev.timestamp info parent,
        simp a (simp h refl),
      )
      | inr a ↦ ([], simp a refl)
    ]

-- What the points of a successful run hold of the two kinds.
composed :
    (es : List ExitPoint) (vs : List ValidatorPoint) (o : OverviewPoint)
    (energies : List EnergyPoint) (b : BlockPoints) (s : SlotPoints)
    → let points =
        map exited es
        ++ (map individual vs
            ++ (overview o ∷ (map energy energies ++ (block_points b ++ slot_points s)))) in
      (validators_of points ≡ vs) × (overviews_of points ≡ o ∷ [])
composed es vs o energies b s =
    let later = block_points b ++ slot_points s in
    let (v, p) =
      exited-IsBeside es (map individual vs ++ (overview o ∷ (map energy energies ++ later))) in
    let (v1, p1) = individual_first vs (overview o ∷ (map energy energies ++ later)) in
    let (v2, p2) = energy-IsBeside energies later in
    let (v3, p3) = block_points-IsBeside b (slot_points s) in
    let (v4, p4) = slot_points-alone s in
    (v ∙ v1 ∙ ap (◌++◌ vs) (v2 ∙ v3 ∙ v4) ∙ append-nil vs, p ∙ p1 ∙ ap (◌∷◌ o) (p2 ∙ p3 ∙ p4))

-- Behind the fork, with the staker information of the block and of its parent, with weights and locked
-- stakes that are uint64 values, and where neither the events nor the slots make it panic: Write
-- returns points; those of the current validators are one for each validation of the block, in order,
-- and tell its changes since the parent block; and there is one overview, which is that of
-- createValidatorOverview.
pub write-Tells :
    {F : Type 0} (w : Writer F) (ev : Event) (info parent : StakerInformation)
    → ev.hayabusa_status.forked ≡ true
    → ev.staker ≡ some info
    → ev.parent_staker ≡ some parent
    → All IsUint64 parent.validations
    → All IsUint64 info.validations
    → create_block_points w ev ≢ panicked
    → create_slot_points w.sched w.floats w.interval w.epoch_length ev info ≢ panicked
    → (points : List StakerPoint) × (write w ev ≡ done points)
      × All2
          (λ (v : Validation) (p : ValidatorPoint).
            Tells (lookup v.address (validation_map parent.validations)) v p)
          info.validations
          (validators_of points)
      × (overviews_of points
          ≡ create_validator_overview w.staker_address w.epoch_length ev info ∷ [])
unfolding write fetch_parent with_staker write_points ◌>>=◌
write-Tells w ev info parent forked present known before now events slots =
    let told : validations_of ev.parent_staker ≡ parent.validations = ap validations_of known in
    let (single, made, tells) =
      create_single_validator_stats-Tells w.range_validators ev info info present
        (subst (λ l. All IsUint64 l) (sym told) before) now in
    let (energies, powered) = create_energy_stats_done w.epoch_length ev info parent known in
    let (b, blocked) = or_logged_done no_block_points (create_block_points w ev) events in
    let (s, slotted) =
      or_logged_done no_slot_points
        (create_slot_points w.sched w.floats w.interval w.epoch_length ev info) slots in
    let o = create_validator_overview w.staker_address w.epoch_length ev info in
    let (v, p) = composed single.exits single.validators o energies b s in
    let tells' =
      subst
        (λ l.
          All2
            (λ (v : Validation) (p : ValidatorPoint).
              Tells (lookup v.address (validation_map l)) v p)
            info.validations single.validators)
        told tells in
    (
      map exited single.exits
          ++ (map individual single.validators
              ++ (overview o ∷ (map energy energies ++ (block_points b ++ slot_points s)))),
      simp forked (simp known (simp present (rw (made, powered, blocked, slotted) refl))),
      subst
          (λ l.
            All2
              (λ (v : Validation) (p : ValidatorPoint).
                Tells (lookup v.address (validation_map parent.validations)) v p)
              info.validations l)
          (sym v) tells',
      p,
    )
