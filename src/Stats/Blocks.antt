-- ===== src/Stats/Blocks.antt =====
-- stats/blockstats/blocks.go and stats/utilisation/utilisation.go. A quotient of floating-point numbers
-- is the pair of its terms; a factor that is a constant of the configuration is left out of the pair.
pub mod Gaps
use thorflux.Base.{
  ℕ, ◌+◌, ◌-◌, ◌/◌, ◌^◌, Bool, Option, none, some, List, [], ◌∷◌, ltb, if◌then◌else◌, u64_mod, u64,
  sub64,
}
use thorflux.Base.Int.{ℤ, pos, sub_ℕ, ◌*ℤ◌}
use thorflux.Chain.{Block, Tx}
use thorflux.Types.{Event}
use thorflux.Stats.Outcome.{Outcome, done, failed, panicked, ◌>>=◌, deref}

-- The fields that need a base fee.
pub record FeeFields : Type 0 where
  pub block_base_fee : ℕ
  pub block_total_burnt : ℤ
  pub block_total_total_tip : ℕ

-- A point "blockstats"; without a base fee the field block_base_fee is "0" and the others are absent.
pub record BlockPoint : Type 0 where
  pub block_id : ℕ
  pub total_score : ℕ
  pub pos_active : Bool
  pub best_block_number : ℕ
  pub block_gas_used : ℕ
  pub block_gas_limit : ℕ
  pub block_gas_usage : ℕ × ℕ
  pub storage_size : ℕ
  pub block_signer : ℕ
  pub recent_missed_slots : Option ℕ
  pub block_mine_gap : ℤ × ℕ
  pub fees : Option FeeFields
  pub com_bit : Bool
  pub time : ℕ

-- `int64(n)` of a uint64.
unfoldable pub to_int64 : ℕ → ℤ
to_int64 n = if ltb n (2 ^ 63) then pos n else sub_ℕ n u64_mod

-- `totalTip.Add(totalTip, Reward)`, which dereferences the reward.
unfoldable pub total_tip_from : ℕ → List Tx → Outcome ℕ
total_tip_from total [] = done total
total_tip_from total (t ∷ ts) = deref t.reward >>= (λ reward. total_tip_from (total + reward) ts)

-- The time since the previous block, on uint64.
unfoldable pub gap_to : (block prev : Block) → ℕ
gap_to block prev = sub64 block.timestamp prev.timestamp

unfoldable pub missed_since : (interval gap : ℕ) → ℕ
missed_since interval gap = sub64 (u64 (gap + (interval - 1)) / interval) 1

abbrev pub missed_of : (interval : ℕ) → Block → Option Block → Option ℕ
missed_of interval block none = none
missed_of interval block (some prev) = some (missed_since interval (gap_to block prev))

-- `gap`, which is the interval itself without a previous block.
abbrev pub gap_of : (interval : ℕ) → Block → Option Block → ℕ
gap_of interval block none = interval
gap_of interval block (some prev) = gap_to block prev

-- The burnt amount is the product of the base fee and the gas as an int64.
unfoldable pub fee_fields : Block → Option ℕ → Outcome (Option FeeFields)
unfolding total_tip_from to_int64
fee_fields block none = done none
fee_fields block (some base_fee) = total_tip_from 0 block.transactions >>= (λ tip. done (
    some (record {
      block_base_fee = base_fee;
      block_total_burnt = pos base_fee *ℤ to_int64 block.gas_used;
      block_total_total_tip = tip;
    })))

unfoldable pub block_point : (interval : ℕ) → Event → Option FeeFields → BlockPoint
unfolding gap_to missed_since
block_point interval ev fees =
    let block = ev.block in
    record {
      block_id = block.id;
      total_score = block.total_score;
      pos_active = ev.hayabusa_status.active;
      best_block_number = block.number;
      block_gas_used = block.gas_used;
      block_gas_limit = block.gas_limit;
      block_gas_usage = (block.gas_used, block.gas_limit);
      storage_size = block.size;
      block_signer = block.signer;
      recent_missed_slots = missed_of interval block ev.prev;
      block_mine_gap = (sub_ℕ (gap_of interval block ev.prev) interval, interval);
      fees = fees;
      com_bit = block.com_bit;
      time = ev.timestamp;
    }

-- `Write` of blockstats.
unfoldable pub write_blockstats : (interval : ℕ) → Event → Outcome BlockPoint
unfolding fee_fields block_point
write_blockstats interval ev =
    fee_fields ev.block ev.block.base_fee >>= (λ fees. done (block_point interval ev fees))

-- A point "blockspace_utilization".
pub record UtilizationPoint : Type 0 where
  pub utilization : ℕ × ℕ
  pub epoch : ℕ
  pub time : ℕ

-- `Write` of utilisation.
unfoldable pub write_utilisation : (epoch_length : ℕ) → Event → UtilizationPoint
write_utilisation epoch_length ev = record {
  utilization = (ev.block.gas_used, ev.block.gas_limit);
  epoch = ev.block.number / epoch_length;
  time = ev.timestamp;
}
