-- ===== src/Examples/Trading.antt =====
-- The theorems on the transactions of a block, at four transactions.
use thorflux.Base.{ℕ, ◌≡◌, refl, ◌↔◌, inl, inr, none, some, List, [], ◌∷◌, ltb, All, Any}
use thorflux.Base.Sorting.{sort_by, insert_by, key_lt-IsOrder}
use thorflux.Chain.{Tx, legacy, dynamic_fee}
use thorflux.Stats.Transactions.{
  no_tx_stats, process_txs, process_tx, count_type, process_outputs, CoefStats, no_coefs,
  process_coefs, process_coef, add_coef, increment, is_legacy, then_coefs, finalize_calc, mode_from,
  PriorityFeeStats, add_fee, process_fee, process_fees,
}
use thorflux.Stats.Transactions.Written.{
  TransactionPoint, write, point_of, each_txs, no_totals, each_tx, with_coefs, then_each,
  transaction_point, candle_of,
}
use thorflux.Stats.Transactions.Written.Coefficients.{LacksCoef}
use thorflux.Stats.Transactions.Written.Tallies.{Tallies, write-Tallies}

abbrev legacy_tx : ℕ → Tx
legacy_tx coef = record {
  tx_type = legacy;
  clause_count = 1;
  gas_price_coef = some coef;
  max_priority_fee = none;
  reward = some 5;
  outputs = [];
}

abbrev fee_tx : ℕ → Tx
fee_tx fee = record {
  tx_type = dynamic_fee;
  clause_count = 2;
  gas_price_coef = none;
  max_priority_fee = some fee;
  reward = none;
  outputs = [];
}

abbrev four_txs : List Tx
four_txs = legacy_tx 7 ∷ fee_tx 30 ∷ legacy_tx 2 ∷ legacy_tx 7 ∷ []

test-process_txs : (process_txs no_tx_stats four_txs).clause_count ≡ 5
unfolding process_txs process_tx count_type process_outputs
test-process_txs = refl

abbrev four_coefs : CoefStats
four_coefs = record { coefs = 7 ∷ 2 ∷ 7 ∷ []; coef_count = (7, 2) ∷ (2, 1) ∷ []; sum = 16 }

test-process_coefs : process_coefs four_txs no_coefs ≡ some four_coefs
unfolding process_coefs process_coef add_coef increment is_legacy then_coefs
test-process_coefs = refl

-- The range may begin with the later key.
abbrev other_order : List (ℕ × ℕ)
other_order = (2, 1) ∷ (7, 2) ∷ []

test-finalize_calc :
    finalize_calc four_coefs other_order
    ≡ record { average = (16, 3); max = 7; min = 2; mode = 7; median = 7 }
unfolding finalize_calc mode_from sort_by insert_by
test-finalize_calc = refl

abbrev fee_txs : List Tx
fee_txs = legacy_tx 1 ∷ fee_tx 30 ∷ fee_tx 50 ∷ fee_tx 20 ∷ []

abbrev no_fees : PriorityFeeStats ℕ
no_fees = record { candlestick_count = 0; open_fee = 0; high_fee = 0; low_fee = 0; close_fee = 0 }

abbrev candle : PriorityFeeStats ℕ
candle = record {
  candlestick_count = 3;
  open_fee = 30;
  high_fee = 50;
  low_fee = 20;
  close_fee = 20;
}

test-process_fees : process_fees (λ fee. fee) ltb no_fees fee_txs ≡ candle
unfolding process_fees process_fee add_fee
test-process_fees = refl

-- Two kinds of transactions, and the map of coefficients ranged over as it stands.
abbrev four_point : TransactionPoint ℕ
four_point = record {
  total_txs = 4;
  total_clauses = 5;
  vet_transfers = 0;
  vet_transfers_amount = [];
  validator_rewards = 5 ∷ 5 ∷ 5 ∷ [];
  coef_results = record { average = (16, 3); max = 7; min = 2; mode = 7; median = 7 };
  candlestick = some (record {
    candlestick_count = 1;
    open_fee = 30;
    high_fee = 30;
    low_fee = 30;
    close_fee = 30;
  });
  legacy_txs = 3;
  dyn_fee_txs = 1;
}

test-write : write (λ fee. fee) ltb 0 (λ m. m) four_txs ≡ some four_point
unfolding write point_of each_txs no_totals each_tx with_coefs then_each transaction_point candle_of
    process_tx count_type process_outputs process_coef add_coef increment is_legacy process_fee
    add_fee finalize_calc mode_from sort_by insert_by
test-write = refl

All-Any_self :
    (m order : List (ℕ × ℕ))
    → ((e : ℕ × ℕ) → Any (λ d. d ≡ e) m → Any (λ d. d ≡ e) order)
    → All (λ e. Any (λ d. d ≡ e) order) m
All-Any_self [] order h = tt
All-Any_self (e ∷ m) order h = (h e (inl refl), All-Any_self m order (λ d a. h d (inr a)))

write-Tallies_example :
    ((write (λ fee. fee) ltb 0 (λ m. m) four_txs ≡ none) ↔ Any LacksCoef four_txs)
    × ((p : TransactionPoint ℕ)
        → write (λ fee. fee) ltb 0 (λ m. m) four_txs ≡ some p
        → Tallies (λ fee. fee) ltb four_txs p)
write-Tallies_example =
    write-Tallies (λ fee. fee) ltb (key_lt-IsOrder (λ (fee : ℕ). fee)) 0 (λ m. m)
      (λ m. (All-Any_self m m (λ e a. a), All-Any_self m m (λ e a. a))) four_txs
