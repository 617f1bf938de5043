-- ===== src/Stats/Transactions/Written.antt =====
-- `Write` of stats/transactions/transactions.go. A quotient by 10^18 is left to the reader: the field
-- of the rewards is the list of the rewards that are added up.
pub mod Counters
pub mod Coefficients
pub mod Tallies
use thorflux.Base.{ℕ, Bool, Option, none, some, List, [], ◌∷◌, ltb, if◌then◌else◌, length}
use thorflux.Chain.{Tx}
use thorflux.Stats.Transactions.{
  TxStats, no_tx_stats, process_tx, process_outputs, CoefStats, no_coefs, process_coef, CoefResult,
  finalize_calc, PriorityFeeStats, process_fee,
}

pub record Totals (F : Type 0) : Type 0 where
  pub fees : PriorityFeeStats F
  pub txs : TxStats
  pub coefs : CoefStats

pub record TransactionPoint (F : Type 0) : Type 0 where
  pub total_txs : ℕ
  pub total_clauses : ℕ
  pub vet_transfers : ℕ
  pub vet_transfers_amount : List ℕ
  pub validator_rewards : List ℕ
  pub coef_results : CoefResult
  pub candlestick : Option (PriorityFeeStats F)
  pub legacy_txs : ℕ
  pub dyn_fee_txs : ℕ

module _ {F : Type 0} (gwei : ℕ → F) (lt : F → F → Bool) where
  unfoldable pub with_coefs : Totals F → Tx → Option CoefStats → Option (Totals F)
  with_coefs s t none = none
  with_coefs s t (some c) = some (record {
    fees = process_fee gwei lt s.fees t.max_priority_fee;
    txs = process_outputs (process_tx s.txs t) t.outputs;
    coefs = c;
  })

  -- The body of the loop; a panic of the coefficients ends it.
  unfoldable pub each_tx : Totals F → Tx → Option (Totals F)
  unfolding with_coefs
  each_tx s t = with_coefs s t (process_coef s.coefs t)

  unfoldable pub then_each : (Totals F → Option (Totals F)) → Option (Totals F) → Option (Totals F)
  then_each f none = none
  then_each f (some s) = f s

  unfoldable pub each_txs : List Tx → Totals F → Option (Totals F)
  unfolding each_tx then_each
  each_txs [] s = some s
  each_txs (t ∷ ts) s = then_each (each_txs ts) (each_tx s t)

  -- The candlestick fields are set if it has counted a transaction.
  unfoldable pub candle_of : PriorityFeeStats F → Option (PriorityFeeStats F)
  candle_of s = if ltb 0 s.candlestick_count then some s else none

  -- `range` is the order in which Go ranges over the map of the coefficients.
  unfoldable pub transaction_point :
      (range : List (ℕ × ℕ) → List (ℕ × ℕ)) → List Tx → Totals F → TransactionPoint F
  unfolding candle_of
  transaction_point range txs s = record {
    total_txs = length txs;
    total_clauses = s.txs.clause_count;
    vet_transfers = s.txs.vet_transfer_count;
    vet_transfers_amount = s.txs.vet_transfers_amount;
    validator_rewards = s.txs.total_rewards;
    coef_results = finalize_calc s.coefs (range s.coefs.coef_count);
    candlestick = candle_of s.fees;
    legacy_txs = s.txs.legacy_count;
    dyn_fee_txs = s.txs.dynamic_fee_count;
  }

  unfoldable pub no_totals : (no_fee : F) → Totals F
  no_totals no_fee = record {
    fees = record {
      candlestick_count = 0;
      open_fee = no_fee;
      high_fee = no_fee;
      low_fee = no_fee;
      close_fee = no_fee;
    };
    txs = no_tx_stats;
    coefs = no_coefs;
  }

  unfoldable pub point_of :
      (range : List (ℕ × ℕ) → List (ℕ × ℕ))
      → List Tx
      → Option (Totals F)
      → Option (TransactionPoint F)
  unfolding transaction_point
  point_of range txs none = none
  point_of range txs (some s) = some (transaction_point range txs s)

  -- `Write`: the point, or `none` where it panics.
  unfoldable pub write :
      (no_fee : F) (range : List (ℕ × ℕ) → List (ℕ × ℕ)) → List Tx → Option (TransactionPoint F)
  unfolding point_of each_txs no_totals
  write no_fee range txs = point_of range txs (each_txs txs (no_totals no_fee))
