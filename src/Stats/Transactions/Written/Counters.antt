-- ===== src/Stats/Transactions/Written/Counters.antt =====
-- What the counters of stats/transactions/tx_stats.go are after a block's transactions.
use thorflux.Base.{
  ℕ, ◌+◌, ◌≡◌, refl, sym, ap, ◌∙◌, Bool, true, false, Option, none, some, List, [], ◌∷◌, ◌++◌, map,
  arith, if◌then◌else◌, length, select, length-append, length-map,
}
use mathlib.Core.List.{append_assoc, append-nil}
use thorflux.Chain.{Tx, TxType, legacy, dynamic_fee, other, Output, Transfer}
use thorflux.Stats.Transactions.{
  TxStats, add_reward, count_type, process_tx, process_output, process_outputs, process_txs,
  is_legacy,
}

-- An optional number in front of a list.
abbrev pub or_none : Option ℕ → List ℕ → List ℕ
or_none none coefs = coefs
or_none (some c) coefs = c ∷ coefs

abbrev pub total_of : List ℕ → ℕ
total_of [] = 0
total_of (x ∷ xs) = x + total_of xs

abbrev pub amounts_in : List Output → List ℕ
amounts_in [] = []
amounts_in (o ∷ os) = map (λ (t : Transfer). t.amount) o.transfers ++ amounts_in os

-- The amounts of all transfers, in order.
abbrev pub amounts_of : List Tx → List ℕ
amounts_of [] = []
amounts_of (t ∷ ts) = amounts_in t.outputs ++ amounts_of ts

abbrev pub rewards_of : List Tx → List ℕ
rewards_of [] = []
rewards_of (t ∷ ts) = or_none t.reward (rewards_of ts)

abbrev pub is_dynamic : TxType → Bool
is_dynamic legacy = false
is_dynamic dynamic_fee = true
is_dynamic (other b) = false

length-amounts_in :
    (o : Output) (os : List Output)
    → length (amounts_in (o ∷ os)) ≡ length o.transfers + length (amounts_in os)
length-amounts_in o os = omega (
  arith,
  length-append (map (λ (t : Transfer). t.amount) o.transfers) (amounts_in os),
  length-map (λ (t : Transfer). t.amount) o.transfers,
)

-- What the outputs of a transaction leave, and what they add.
record FromOutputs (os : List Output) (s out : TxStats) : Type 0 where
  pub amounts : out.vet_transfers_amount ≡ s.vet_transfers_amount ++ amounts_in os
  pub transfers : out.vet_transfer_count ≡ s.vet_transfer_count + length (amounts_in os)
  pub clauses : out.clause_count ≡ s.clause_count
  pub rewards : out.total_rewards ≡ s.total_rewards
  pub legacies : out.legacy_count ≡ s.legacy_count
  pub dynamics : out.dynamic_fee_count ≡ s.dynamic_fee_count

process_outputs-FromOutputs :
    (os : List Output) (s : TxStats) → FromOutputs os s (process_outputs s os)
unfolding process_outputs process_output
process_outputs-FromOutputs [] s = record {
  amounts = sym (append-nil s.vet_transfers_amount);
  transfers = omega arith;
  clauses = refl;
  rewards = refl;
  legacies = refl;
  dynamics = refl;
}
process_outputs-FromOutputs (o ∷ os) s =
    let rest = process_outputs-FromOutputs os (process_output s o) in
    record {
      amounts =
          rest.amounts
          ∙ append_assoc s.vet_transfers_amount (map (λ (t : Transfer). t.amount) o.transfers)
              (amounts_in os);
      transfers = omega (arith, rest.transfers, length-amounts_in o os);
      clauses = rest.clauses;
      rewards = rest.rewards;
      legacies = rest.legacies;
      dynamics = rest.dynamics;
    }

-- The counters after the transactions `ts`, from the counters before them.
pub record FromTxs (ts : List Tx) (s out : TxStats) : Type 0 where
  pub amounts : out.vet_transfers_amount ≡ s.vet_transfers_amount ++ amounts_of ts
  pub transfers : out.vet_transfer_count ≡ s.vet_transfer_count + length (amounts_of ts)
  pub clauses : out.clause_count ≡ s.clause_count + total_of (map (λ (t : Tx). t.clause_count) ts)
  pub rewards : out.total_rewards ≡ s.total_rewards ++ rewards_of ts
  pub legacies :
      out.legacy_count ≡ s.legacy_count + length (select (λ (t : Tx). is_legacy t.tx_type) ts)
  pub dynamics :
      out.dynamic_fee_count
      ≡ s.dynamic_fee_count + length (select (λ (t : Tx). is_dynamic t.tx_type) ts)

add_reward-append :
    (r : Option ℕ) (before later : List ℕ)
    → add_reward r before ++ later ≡ before ++ or_none r later
add_reward-append none before later = refl
add_reward-append (some x) before later = append_assoc before (x ∷ []) later

-- A transaction's type moves one of the counters of types, and nothing else.
record FromType (t : TxType) (s out : TxStats) : Type 0 where
  pub amounts : out.vet_transfers_amount ≡ s.vet_transfers_amount
  pub transfers : out.vet_transfer_count ≡ s.vet_transfer_count
  pub clauses : out.clause_count ≡ s.clause_count
  pub rewards : out.total_rewards ≡ s.total_rewards
  pub legacies : out.legacy_count ≡ s.legacy_count + (if is_legacy t then 1 else 0)
  pub dynamics : out.dynamic_fee_count ≡ s.dynamic_fee_count + (if is_dynamic t then 1 else 0)

count_type-FromType : (t : TxType) (s : TxStats) → FromType t s (count_type t s)
unfolding count_type is_legacy
count_type-FromType legacy s = record {
  amounts = refl;
  transfers = refl;
  clauses = refl;
  rewards = refl;
  legacies = refl;
  dynamics = omega arith;
}
count_type-FromType dynamic_fee s = record {
  amounts = refl;
  transfers = refl;
  clauses = refl;
  rewards = refl;
  legacies = omega arith;
  dynamics = refl;
}
count_type-FromType (other b) s = record {
  amounts = refl;
  transfers = refl;
  clauses = refl;
  rewards = refl;
  legacies = omega arith;
  dynamics = omega arith;
}

length-select_first :
    {A : Type 0} (p : A → Bool) (x : A) (xs : List A)
    → length (select p (x ∷ xs)) ≡ (if p x then 1 else 0) + length (select p xs)
length-select_first p x xs = ground arith

pub process_txs-FromTxs : (ts : List Tx) (s : TxStats) → FromTxs ts s (process_txs s ts)
unfolding process_txs process_tx
process_txs-FromTxs [] s = record {
  amounts = sym (append-nil s.vet_transfers_amount);
  transfers = omega arith;
  clauses = omega arith;
  rewards = sym (append-nil s.total_rewards);
  legacies = omega arith;
  dynamics = omega arith;
}
process_txs-FromTxs (t ∷ ts) s =
    let s' : TxStats = record s {
      clause_count = s.clause_count + t.clause_count;
      total_rewards = add_reward t.reward s.total_rewards;
    } in
    let typed = count_type-FromType t.tx_type s' in
    let put = process_outputs-FromOutputs t.outputs (count_type t.tx_type s') in
    let rest = process_txs-FromTxs ts (process_outputs (process_tx s t) t.outputs) in
    record {
      amounts =
          rest.amounts
          ∙ ap (λ l. l ++ amounts_of ts)
              (put.amounts ∙ ap (λ l. l ++ amounts_in t.outputs) typed.amounts)
          ∙ append_assoc s.vet_transfers_amount (amounts_in t.outputs) (amounts_of ts);
      transfers = omega (
        arith,
        rest.transfers,
        put.transfers,
        typed.transfers,
        length-append (amounts_in t.outputs) (amounts_of ts),
      );
      clauses = omega (arith, rest.clauses, put.clauses, typed.clauses);
      rewards =
          rest.rewards
          ∙ ap (λ l. l ++ rewards_of ts) (put.rewards ∙ typed.rewards)
          ∙ add_reward-append t.reward s.total_rewards (rewards_of ts);
      legacies = omega (
        arith,
        rest.legacies,
        put.legacies,
        typed.legacies,
        length-select_first (λ (x : Tx). is_legacy x.tx_type) t ts,
      );
      dynamics = omega (
        arith,
        rest.dynamics,
        put.dynamics,
        typed.dynamics,
        length-select_first (λ (x : Tx). is_dynamic x.tx_type) t ts,
      );
    }
