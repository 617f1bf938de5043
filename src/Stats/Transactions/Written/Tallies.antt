-- ===== src/Stats/Transactions/Written/Tallies.antt =====
-- What the point of stats/transactions/transactions.go tells of the transactions of a block.
use thorflux.Base.{
  ℕ, ◌-◌, ◌/◌, ◌≤◌, ◌<◌, ◌≡◌, refl, ap, subst, ◌↔◌, inl, inr, Bool, Option, none, some, List, [],
  ◌∷◌, map, arith, lt→ltb, Option-cases, length, select, count, Any,
}
use thorflux.Base.Sorting.{IsOrder}
use thorflux.Chain.{Tx}
use thorflux.Stats.Transactions.{
  no_tx_stats, process_txs, CoefStats, no_coefs, is_legacy, process_coef, then_coefs, process_coefs,
  finalize_calc, PriorityFeeStats, process_fee, process_fees,
}
use thorflux.Stats.Transactions.Ranks.{HasRank, Visits, finalize_calc-ranks}
use thorflux.Stats.Transactions.Candles.{fees_of, IsCandle, process_fees-IsCandle}
use thorflux.Stats.Transactions.Written.{
  Totals, TransactionPoint, with_coefs, each_tx, then_each, each_txs, candle_of, transaction_point,
  no_totals, point_of, write,
}
use thorflux.Stats.Transactions.Written.Counters.{
  total_of, amounts_of, rewards_of, is_dynamic, process_txs-FromTxs,
}
use thorflux.Stats.Transactions.Written.Coefficients.{
  LacksCoef, coefs_of, process_coefs-none, process_coefs-FromCoefs, averaged,
}

pub record Tallies {F : Type 0} (gwei : ℕ → F) (lt : F → F → Bool) (ts : List Tx)
    (p : TransactionPoint F) : Type 0 where
  pub txs : p.total_txs ≡ length ts
  pub clauses : p.total_clauses ≡ total_of (map (λ (t : Tx). t.clause_count) ts)
  pub amounts : p.vet_transfers_amount ≡ amounts_of ts
  pub transfers : p.vet_transfers ≡ length (amounts_of ts)
  pub rewards : p.validator_rewards ≡ rewards_of ts
  pub legacies : p.legacy_txs ≡ length (select (λ (t : Tx). is_legacy t.tx_type) ts)
  pub dynamics : p.dyn_fee_txs ≡ length (select (λ (t : Tx). is_dynamic t.tx_type) ts)
  pub average :
      0 < length (coefs_of ts)
      → p.coef_results.average ≡ (total_of (coefs_of ts), length (coefs_of ts))
  pub ranks :
      0 < length (coefs_of ts)
      → HasRank 0 p.coef_results.min (coefs_of ts)
        × HasRank (length (coefs_of ts) / 2) p.coef_results.median (coefs_of ts)
        × HasRank (length (coefs_of ts) - 1) p.coef_results.max (coefs_of ts)
  pub mode :
      (c : ℕ)
      → 0 < length (coefs_of ts)
      → count c (coefs_of ts) ≤ count p.coef_results.mode (coefs_of ts)
  pub candle :
      (f : F) (fs : List F)
      → fees_of gwei ts ≡ f ∷ fs
      → (s : PriorityFeeStats F) × (p.candlestick ≡ some s) × IsCandle lt f fs s
  pub no_candle : fees_of gwei ts ≡ [] → p.candlestick ≡ none

some-injective : {A : Type 0} {a b : A} → some a ≡ some b → a ≡ b
some-injective h = cc

module _ {F : Type 0} (gwei : ℕ → F) (lt : F → F → Bool) where
  -- The one loop is three, of which the one over the coefficients may panic.
  joined : Totals F → List Tx → Option CoefStats → Option (Totals F)
  joined s ts none = none
  joined s ts (some c) =
      some (record { fees = process_fees gwei lt s.fees ts; txs = process_txs s.txs ts; coefs = c })

  each_txs-joined :
      (ts : List Tx) (s : Totals F) → each_txs gwei lt ts s ≡ joined s ts (process_coefs ts s.coefs)
  unfolding each_txs each_tx with_coefs then_each joined process_coefs then_coefs process_fees
      process_txs
  each_txs-joined [] s = refl
  each_txs-joined (t ∷ ts) s = elim (Option-cases (process_coef s.coefs t)) [
    | inl e ↦ simp e (refl)
    | inr (c, e) ↦ simp e (each_txs-joined ts _)
  ]

  process_fees-unchanged :
      (ts : List Tx) (s : PriorityFeeStats F) → fees_of gwei ts ≡ [] → process_fees gwei lt s ts ≡ s
  unfolding process_fees process_fee
  process_fees-unchanged [] s h = refl
  process_fees-unchanged (t ∷ ts) s h = elim (Option-cases t.max_priority_fee) [
    | inl e ↦ rw e (process_fees-unchanged ts s (rw e at h))
    | inr (fee, e) ↦ absurd (let no = rw e at h in cc)
  ]

  candle_of-some : (s : PriorityFeeStats F) → 0 < s.candlestick_count → candle_of gwei lt s ≡ some s
  unfolding candle_of
  candle_of-some s h = rw (lt→ltb _ _ h) refl

  module _ (o : IsOrder lt) (no_fee : F) (range : List (ℕ × ℕ) → List (ℕ × ℕ)) where
    write-joined :
        (ts : List Tx)
        → write gwei lt no_fee range ts
          ≡ point_of gwei lt range ts
              (joined (no_totals gwei lt no_fee) ts (process_coefs ts no_coefs))
    unfolding write no_totals
    write-joined ts = ap (point_of gwei lt range ts) (each_txs-joined ts (no_totals gwei lt no_fee))

    point_of-none :
        (ts : List Tx) (r : Option CoefStats)
        → point_of gwei lt range ts (joined (no_totals gwei lt no_fee) ts r) ≡ none
        → r ≡ none
    unfolding joined point_of
    point_of-none ts none h = refl
    point_of-none ts (some c) h = absurd (cc)

    no_point :
        (ts : List Tx)
        → point_of gwei lt range ts (joined (no_totals gwei lt no_fee) ts none) ≡ none
    unfolding joined point_of
    no_point ts = refl

    made :
        (ts : List Tx) (c : CoefStats) (p : TransactionPoint F)
        → point_of gwei lt range ts (joined (no_totals gwei lt no_fee) ts (some c)) ≡ some p
        → transaction_point gwei lt range ts (record {
          fees = process_fees gwei lt (no_totals gwei lt no_fee).fees ts;
          txs = process_txs no_tx_stats ts;
          coefs = c;
        })
          ≡ p
    unfolding joined point_of no_totals
    made ts c p h = some-injective h

    point-Tallies :
        ((m : List (ℕ × ℕ)) → Visits (range m) m)
        → (ts : List Tx) (c : CoefStats) → process_coefs ts no_coefs ≡ some c
        → Tallies gwei lt ts (
            transaction_point gwei lt range ts (record {
              fees = process_fees gwei lt (no_totals gwei lt no_fee).fees ts;
              txs = process_txs no_tx_stats ts;
              coefs = c;
            }))
    unfolding transaction_point no_totals
    point-Tallies visits ts c h =
        let txs = process_txs-FromTxs ts no_tx_stats in
        let from = process_coefs-FromCoefs ts no_coefs c h in
        let order = range c.coef_count in
        let seen : length c.coefs ≡ length (coefs_of ts) = ap length from.coefs in
        let start = (no_totals gwei lt no_fee).fees in
        record {
          txs = refl;
          clauses = omega (arith, txs.clauses);
          amounts = txs.amounts;
          transfers = omega (arith, txs.transfers);
          rewards = txs.rewards;
          legacies = omega (arith, txs.legacies);
          dynamics = omega (arith, txs.dynamics);
          average = λ some_coef. averaged c from some_coef order;
          ranks = λ some_coef.
              let all = finalize_calc-ranks ts c order 0 h (visits c.coef_count) (omega arith) in
              subst
                (λ l.
                  HasRank 0 (finalize_calc c order).min l
                  × HasRank (length l / 2) (finalize_calc c order).median l
                  × HasRank (length l - 1) (finalize_calc c order).max l)
                from.coefs (all.0, all.1, all.2);
          mode = λ k some_coef.
              let all = finalize_calc-ranks ts c order k h (visits c.coef_count) (omega arith) in
              subst (λ l. count k l ≤ count (finalize_calc c order).mode l) from.coefs all.3;
          candle = λ f fs e.
              let candle = process_fees-IsCandle gwei lt o start ts f fs refl e in
              (
                process_fees gwei lt start ts,
                candle_of-some _ (omega (arith, candle.counted)),
                candle,
              );
          no_candle = λ e. ap (candle_of gwei lt) (process_fees-unchanged ts start e);
        }

    -- The point is not made, by a panic, exactly if a legacy transaction lacks its coefficient. A point
    -- that is made tells the tallies.
    pub write-Tallies :
        ((m : List (ℕ × ℕ)) → Visits (range m) m)
        → (ts : List Tx)
        → ((write gwei lt no_fee range ts ≡ none) ↔ Any LacksCoef ts)
          × ((p : TransactionPoint F)
              → write gwei lt no_fee range ts ≡ some p
              → Tallies gwei lt ts p)
    write-Tallies visits ts = rw (write-joined ts) (
      (
        (λ h. (process_coefs-none ts no_coefs).0 (point_of-none ts _ h)),
        (λ a. rw ((process_coefs-none ts no_coefs).1 a) (no_point ts)),
      ),
      (λ p h. elim (Option-cases (process_coefs ts no_coefs)) [
        | inl e ↦ absurd (let no = no_point ts in let same = rw e at h in cc)
        | inr (c, e) ↦
            subst (Tallies gwei lt ts) (made ts c p (rw e at h)) (point-Tallies visits ts c e)
      ]),
    )
