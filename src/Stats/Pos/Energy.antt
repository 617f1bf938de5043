-- ===== src/Stats/Pos/Energy.antt =====
-- `createEnergyStats` of stats/pos/writer.go; a panic is `none`.
use thorflux.Base.{ℕ, ◌+◌, ◌/◌, not, ◌||◌, Option, none, some, List, [], ◌∷◌, ◌==◌, if◌then◌else◌}
use thorflux.Base.Int.{ℤ, pos, negsuc, sub_ℕ, ◌-ℤ◌, ◌*ℤ◌}
use thorflux.Types.{StakerInformation, Event}
use thorflux.VetUtil.{scale_to_vet_signed}

-- A point "hayabusa_gas"; the ratio is the pair of the terms that the code divides.
pub record EnergyPoint : Type 0 where
  pub vtho_issued : ℕ
  pub vtho_burned : ℕ
  pub issued_burned_ratio : ℕ × ℤ
  pub validators_share : ℕ
  pub delegators_share : ℕ
  pub epoch : ℕ
  pub time : ℕ

-- `Div` by 10, which is Euclidean.
unfoldable pub div_10 : ℤ → ℤ
div_10 (pos n) = pos (n / 10)
div_10 (negsuc n) = negsuc (n / 10)

abbrev pub magnitude : ℤ → ℕ
magnitude (pos n) = n
magnitude (negsuc n) = n + 1

-- `vthoBurnedDivider`.
unfoldable pub divider : ℤ → ℤ
divider (pos n) = if n == 0 then pos 1 else pos n
divider (negsuc n) = negsuc n

unfoldable pub energy_point : (epoch time : ℕ) → (issued burned : ℤ) → EnergyPoint
unfolding div_10 divider
energy_point epoch time issued burned =
    let validators = div_10 (issued *ℤ pos 3) in
    record {
      vtho_issued = scale_to_vet_signed issued;
      vtho_burned = scale_to_vet_signed burned;
      issued_burned_ratio = (magnitude issued, divider burned);
      validators_share = scale_to_vet_signed validators;
      delegators_share = scale_to_vet_signed (issued -ℤ validators);
      epoch = epoch;
      time = time;
    }

-- With the parent at hand: nothing is written unless its two totals are positive.
unfoldable pub energy_since :
    (epoch time : ℕ) → (info parent : StakerInformation) → List EnergyPoint
unfolding energy_point
energy_since epoch time info parent =
    if (parent.total_supply == 0) || (parent.total_burned == 0)
    then []
    else energy_point epoch time (sub_ℕ info.total_supply parent.total_supply)
        (sub_ℕ info.total_burned parent.total_burned)
      ∷ []

unfoldable pub with_parent :
    (epoch time : ℕ) → StakerInformation → Option StakerInformation → Option (List EnergyPoint)
unfolding energy_since
with_parent epoch time info none = none
with_parent epoch time info (some parent) = some (energy_since epoch time info parent)

unfoldable pub create_energy_stats :
    (epoch_length : ℕ) → Event → StakerInformation → Option (List EnergyPoint)
unfolding with_parent
create_energy_stats epoch_length ev info =
    if not ev.hayabusa_status.active
    then some []
    else with_parent (ev.block.number / epoch_length) ev.timestamp info ev.parent_staker
