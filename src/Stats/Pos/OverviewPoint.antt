-- ===== src/Stats/Pos/OverviewPoint.antt =====
-- `createValidatorOverview` of stats/pos/writer.go around its loop.
use thorflux.Base.{
  ℕ, ◌+◌, ◌*◌, ◌/◌, ◌%◌, not, Option, none, some, List, [], ◌∷◌, map, ◌==◌, if◌then◌else◌, length,
  flatten,
}
use thorflux.Chain.{Tx, Output, Transfer}
use thorflux.Types.{Validation, StakerInformation, lookup, Event}
use thorflux.VetUtil.{scale_to_vet}
use thorflux.Stats.Pos.{no_totals, totals_from}
use thorflux.Stats.Pos.Individual.{entries}

unfoldable pub withdrawn_from : (staker_address total : ℕ) → List Transfer → ℕ
withdrawn_from staker_address total [] = total
withdrawn_from staker_address total (t ∷ ts) =
    withdrawn_from staker_address
      (if not (t.sender == staker_address) then total else total + t.amount) ts

-- The transfers of a block in the order of the three loops.
unfoldable pub transfers_of : List Tx → List Transfer
transfers_of txs =
    flatten (map (λ (t : Tx). flatten (map (λ (o : Output). o.transfers) t.outputs)) txs)

unfoldable pub withdrawn_funds : (staker_address : ℕ) → List Tx → ℕ
unfolding withdrawn_from transfers_of
withdrawn_funds staker_address txs = withdrawn_from staker_address 0 (transfers_of txs)

-- The signer's probability is the pair of the terms that the code divides.
pub record OverviewPoint : Type 0 where
  pub total_stake : ℕ
  pub active_stake : ℕ
  pub active_stake_accumulated : ℕ
  pub active_weight : ℕ
  pub active_weight_accumulated : ℕ
  pub accumulated_weight : ℕ
  pub queued_stake : ℕ
  pub withdrawn_vet : ℕ
  pub contract_vet : ℕ
  pub cooldown_vet_contract : ℕ
  pub withdrawable_vet_contract : ℕ
  pub exiting_vet : ℕ
  pub online_stake : ℕ
  pub offline_stake : ℕ
  pub online_weight : ℕ
  pub offline_weight : ℕ
  pub epoch : ℕ
  pub block_in_epoch : ℕ
  pub active_validators : ℕ
  pub online_validators : ℕ
  pub offline_validators : ℕ
  pub block_number : ℕ
  pub signer_probability : Option (ℕ × ℕ)
  pub weight_processed : Option ℕ
  pub time : ℕ

abbrev pub weight_of : Option Validation → Option ℕ
weight_of none = none
weight_of (some v) = some v.weight

abbrev pub probability_of : Option ℕ → (online_weight : ℕ) → Option (ℕ × ℕ)
probability_of none online_weight = none
probability_of (some w) online_weight = some (w * 100, online_weight)

unfoldable pub create_validator_overview :
    (staker_address epoch_length : ℕ) → Event → StakerInformation → OverviewPoint
unfolding totals_from withdrawn_funds entries lookup
create_validator_overview staker_address epoch_length ev info =
    let t = totals_from no_totals info.validations in
    let number = ev.block.number in
    let signer =
      if ev.hayabusa_status.active
      then weight_of (lookup ev.block.signer t.leader_group)
      else none in
    record {
      total_stake = scale_to_vet (info.total_vet + info.queued_vet);
      active_stake = scale_to_vet info.total_vet;
      active_stake_accumulated = t.accumulated_stake;
      active_weight = scale_to_vet info.total_weight;
      active_weight_accumulated = t.online_weight;
      accumulated_weight = t.accumulated_weight;
      queued_stake = scale_to_vet info.queued_vet;
      withdrawn_vet = scale_to_vet (withdrawn_funds staker_address ev.block.transactions);
      contract_vet = scale_to_vet info.contract_balance;
      cooldown_vet_contract = info.cooldown_vet;
      withdrawable_vet_contract = info.withdrawable_vet;
      exiting_vet = scale_to_vet t.exiting_vet;
      online_stake = scale_to_vet t.online_stake;
      offline_stake = scale_to_vet t.offline_stake;
      online_weight = t.online_weight;
      offline_weight = t.offline_weight;
      epoch = number / epoch_length;
      block_in_epoch = number % epoch_length;
      active_validators = length (entries t.leader_group);
      online_validators = t.online_validators;
      offline_validators = t.offline_validators;
      block_number = number;
      signer_probability = probability_of signer t.online_weight;
      weight_processed = signer;
      time = ev.block.timestamp;
    }
