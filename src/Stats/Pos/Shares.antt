-- ===== src/Stats/Pos/Shares.antt =====
-- How the issued energy is shared in the points of stats/pos/writer.go.
use thorflux.Base.{
  ℕ, ◌+◌, ◌-◌, ◌*◌, ◌/◌, ◌≤◌, ◌<◌, ◌≡◌, refl, true, false, ◌||◌, some, [], ◌∷◌, arith, ◌==◌,
  u64_mod,
}
use thorflux.Base.Int.{ℤ, pos, sub_ℕ, ◌-ℤ◌, ◌*ℤ◌}
use thorflux.Types.{StakerInformation, Event}
use thorflux.VetUtil.{scale_to_vet, scale_to_vet_signed, vet}
use thorflux.Stats.Pos.Energy.{
  EnergyPoint, div_10, energy_point, energy_since, with_parent, create_energy_stats,
}

product_pos : (n : ℕ) → pos n *ℤ pos 3 ≡ pos (n * 3)
unfolding ◌*ℤ◌
product_pos n = ground arith

difference_pos : (n v : ℕ) → v ≤ n → pos n -ℤ pos v ≡ pos (n - v)
unfolding ◌-ℤ◌
difference_pos n v h = ground arith

-- The shares of an amount in whole VET.
abbrev pub IsShared : ℕ → EnergyPoint → Type 0
IsShared n p =
    (p.vtho_issued ≡ n / vet)
    × (p.validators_share ≡ n * 3 / 10 / vet)
    × (p.validators_share + p.delegators_share ≤ p.vtho_issued)
    × (p.vtho_issued ≤ p.validators_share + p.delegators_share + 1)

shares-arith :
    (n v : ℕ)
    → v ≤ n
    → n / vet < u64_mod
    → (scale_to_vet n ≡ n / vet)
      × (scale_to_vet v ≡ v / vet)
      × (scale_to_vet v + scale_to_vet (n - v) ≤ scale_to_vet n)
      × (scale_to_vet n ≤ scale_to_vet v + scale_to_vet (n - v) + 1)
unfolding scale_to_vet
shares-arith n v h fits = (omega arith, omega arith, omega arith, omega arith)

energy_point-IsShared :
    (epoch time n : ℕ) (burned : ℤ)
    → n / vet < u64_mod
    → IsShared n (energy_point epoch time (pos n) burned)
unfolding energy_point div_10 scale_to_vet_signed
energy_point-IsShared epoch time n burned fits =
    let small : n * 3 / 10 ≤ n = omega arith in
    rw (product_pos n, div_10, difference_pos n (n * 3 / 10) small)
      (shares-arith n (n * 3 / 10) small fits)

-- After the activation, with a parent whose totals are positive and a supply that has not shrunk, one
-- point is written. Its issued energy is the growth of the supply in whole VET, the validators' share is
-- three tenths of the growth in whole VET, and the two shares together miss at most one VET of it, if the
-- amount fits into a uint64.
create_energy_stats-IsShared :
    (epoch_length : ℕ) (ev : Event) (info parent : StakerInformation)
    → ev.hayabusa_status.active ≡ true
    → ev.parent_staker ≡ some parent
    → 0 < parent.total_supply
    → 0 < parent.total_burned
    → parent.total_supply ≤ info.total_supply
    → (info.total_supply - parent.total_supply) / vet < u64_mod
    → (p : EnergyPoint) × (create_energy_stats epoch_length ev info ≡ some (p ∷ []))
      × IsShared (info.total_supply - parent.total_supply) p
unfolding create_energy_stats energy_since
create_energy_stats-IsShared epoch_length ev info parent active known supply burned grows fits =
    let growth = info.total_supply - parent.total_supply in
    let epoch = ev.block.number / epoch_length in
    let burnt = sub_ℕ info.total_burned parent.total_burned in
    let issued : sub_ℕ info.total_supply parent.total_supply ≡ pos growth = ground arith in
    let kept : ((parent.total_supply == 0) || (parent.total_burned == 0)) ≡ false = ground arith in
    (
      energy_point epoch ev.timestamp (pos growth) burnt,
      rw (active, known, with_parent, kept, issued) refl,
      energy_point-IsShared epoch ev.timestamp growth burnt fits,
    )
