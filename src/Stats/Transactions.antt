-- ===== src/Stats/Transactions.antt =====
-- stats/transactions: the counters over a block's transactions, the ranks of their gas price
-- coefficients, and the candlestick of their priority fees. A sum that the code keeps as a
-- floating-point number is the list of its summands, and a quotient is the pair of its terms. A panic
-- is `none`.
pub mod Ranks
pub mod Candles
pub mod Written
use thorflux.Base.{
  ℕ, zero, suc, ◌+◌, ◌-◌, ◌/◌, Bool, true, false, Option, none, some, List, [], ◌∷◌, ◌++◌, map, ltb,
  ◌==◌, if◌then◌else◌, length,
}
use thorflux.Base.Sorting.{sort_by, key_lt}
use thorflux.Chain.{Tx, TxType, legacy, dynamic_fee, other, Output, Transfer}

pub record TxStats : Type 0 where
  pub legacy_count : ℕ
  pub dynamic_fee_count : ℕ
  pub clause_count : ℕ
  pub vet_transfer_count : ℕ
  pub event_count : ℕ
  pub vet_transfers_amount : List ℕ
  pub total_rewards : List ℕ

abbrev pub no_tx_stats : TxStats
no_tx_stats = record {
  legacy_count = 0;
  dynamic_fee_count = 0;
  clause_count = 0;
  vet_transfer_count = 0;
  event_count = 0;
  vet_transfers_amount = [];
  total_rewards = [];
}

abbrev pub add_reward : Option ℕ → List ℕ → List ℕ
add_reward none rewards = rewards
add_reward (some r) rewards = rewards ++ r ∷ []

unfoldable pub count_type : TxType → TxStats → TxStats
count_type legacy s = record s { legacy_count = s.legacy_count + 1 }
count_type dynamic_fee s = record s { dynamic_fee_count = s.dynamic_fee_count + 1 }
count_type (other b) s = s

-- `processTx` of txStats.
unfoldable pub process_tx : TxStats → Tx → TxStats
unfolding count_type
process_tx s t = count_type t.tx_type (record s {
  clause_count = s.clause_count + t.clause_count;
  total_rewards = add_reward t.reward s.total_rewards;
})

-- `processOutput`, then `processTransf` for each transfer.
unfoldable pub process_output : TxStats → Output → TxStats
process_output s o = record s {
  vet_transfer_count = s.vet_transfer_count + length o.transfers;
  event_count = s.event_count + length o.events;
  vet_transfers_amount = s.vet_transfers_amount ++ map (λ (t : Transfer). t.amount) o.transfers;
}

unfoldable pub process_outputs : TxStats → List Output → TxStats
unfolding process_output
process_outputs s [] = s
process_outputs s (o ∷ os) = process_outputs (process_output s o) os

unfoldable pub process_txs : TxStats → List Tx → TxStats
unfolding process_tx process_outputs
process_txs s [] = s
process_txs s (t ∷ ts) = process_txs (process_outputs (process_tx s t) t.outputs) ts

-- `coefStats`, without the results; `coef_count` is the map.
pub record CoefStats : Type 0 where
  pub coefs : List ℕ
  pub coef_count : List (ℕ × ℕ)
  pub sum : ℕ

abbrev pub no_coefs : CoefStats
no_coefs = record { coefs = []; coef_count = []; sum = 0 }

-- `m[key]++`.
unfoldable pub increment : ℕ → List (ℕ × ℕ) → List (ℕ × ℕ)
increment k [] = (k, 1) ∷ []
increment k ((j, n) ∷ m) =
    let rest = increment k m in if j == k then (j, n + 1) ∷ m else (j, n) ∷ rest

unfoldable pub add_coef : CoefStats → Option ℕ → Option CoefStats
unfolding increment
add_coef s none = none
add_coef s (some c) =
    some
      (record { coefs = s.coefs ++ c ∷ []; coef_count = increment c s.coef_count; sum = s.sum + c })

unfoldable pub is_legacy : TxType → Bool
is_legacy legacy = true
is_legacy dynamic_fee = false
is_legacy (other b) = false

-- `processTx` of coefStats: a legacy transaction without a coefficient panics.
unfoldable pub process_coef : CoefStats → Tx → Option CoefStats
unfolding add_coef is_legacy
process_coef s t = if is_legacy t.tx_type then add_coef s t.gas_price_coef else some s

unfoldable pub then_coefs : (CoefStats → Option CoefStats) → Option CoefStats → Option CoefStats
then_coefs f none = none
then_coefs f (some s) = f s

unfoldable pub process_coefs : List Tx → CoefStats → Option CoefStats
unfolding process_coef then_coefs
process_coefs [] s = some s
process_coefs (t ∷ ts) s = then_coefs (process_coefs ts) (process_coef s t)

pub record CoefResult : Type 0 where
  pub average : ℕ × ℕ
  pub max : ℕ
  pub min : ℕ
  pub mode : ℕ
  pub median : ℕ

-- The loop for the mode over the entries in the order of the range.
unfoldable pub mode_from : (mode max_count : ℕ) → List (ℕ × ℕ) → ℕ
mode_from mode max_count [] = mode
mode_from mode max_count ((coef, n) ∷ rest) =
    if ltb max_count n then mode_from coef n rest else mode_from mode max_count rest

-- The element at an index that is in range.
abbrev pub at_index : List ℕ → ℕ → ℕ
at_index [] i = 0
at_index (x ∷ xs) zero = x
at_index (x ∷ xs) (suc i) = at_index xs i

-- `finalizeCalc`; with no coefficient the results stay zero.
unfoldable pub finalize_calc : CoefStats → (order : List (ℕ × ℕ)) → CoefResult
unfolding mode_from
finalize_calc s order =
    let sorted = sort_by (key_lt (λ c. c)) s.coefs in
    let n = length sorted in
    if ltb 0 (length s.coefs)
    then record {
      average = (s.sum, n);
      max = at_index sorted (n - 1);
      min = at_index sorted 0;
      mode = mode_from 0 0 order;
      median = at_index sorted (n / 2);
    }
    else record { average = (0, 1); max = 0; min = 0; mode = 0; median = 0 }

-- `priorityFeeStats`, over the floating-point numbers `F`.
pub record PriorityFeeStats (F : Type 0) : Type 0 where
  pub candlestick_count : ℕ
  pub open_fee : F
  pub high_fee : F
  pub low_fee : F
  pub close_fee : F

-- `gwei` is a fee as a floating-point number, divided by 1e9, and `lt` the order.
module _ {F : Type 0} (gwei : ℕ → F) (lt : F → F → Bool) where
  unfoldable pub add_fee : PriorityFeeStats F → F → PriorityFeeStats F
  add_fee s fee =
      if s.candlestick_count == 0
      then record {
        candlestick_count = s.candlestick_count + 1;
        open_fee = fee;
        high_fee = fee;
        low_fee = fee;
        close_fee = fee;
      }
      else record s {
        candlestick_count = s.candlestick_count + 1;
        high_fee = if lt s.high_fee fee then fee else s.high_fee;
        low_fee = if lt fee s.low_fee then fee else s.low_fee;
        close_fee = fee;
      }

  -- `processTx` of priorityFeeStats.
  unfoldable pub process_fee : PriorityFeeStats F → Option ℕ → PriorityFeeStats F
  unfolding add_fee
  process_fee s none = s
  process_fee s (some fee) = add_fee s (gwei fee)

  unfoldable pub process_fees : PriorityFeeStats F → List Tx → PriorityFeeStats F
  unfolding process_fee
  process_fees s [] = s
  process_fees s (t ∷ ts) = process_fees (process_fee s t.max_priority_fee) ts
