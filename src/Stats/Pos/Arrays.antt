-- ===== src/Stats/Pos/Arrays.antt =====
-- The arrays that the contract's `getValidators` returns, as unpackValidators in stats/pos/staker.go
-- takes them out of the values of the ABI library.
use thorflux.Base.{ℕ, Bool, List}
use thorflux.Stats.Outcome.{Outcome, done, panicked, ◌>>=◌, at}

-- The types of the values behind `interface{}`.
pub data AbiArray : Type 0 where
  addresses : List ℕ → AbiArray
  uint8s : List ℕ → AbiArray
  bools : List Bool → AbiArray
  uint32s : List ℕ → AbiArray
  big_ints : List ℕ → AbiArray

-- `next().([]common.Address)`: any other type panics.
unfoldable pub to_addresses : AbiArray → Outcome (List ℕ)
to_addresses (addresses xs) = done xs
to_addresses (uint8s xs) = panicked
to_addresses (bools xs) = panicked
to_addresses (uint32s xs) = panicked
to_addresses (big_ints xs) = panicked

-- `next().([]uint8)`: any other type panics.
unfoldable pub to_uint8s : AbiArray → Outcome (List ℕ)
to_uint8s (addresses xs) = panicked
to_uint8s (uint8s xs) = done xs
to_uint8s (bools xs) = panicked
to_uint8s (uint32s xs) = panicked
to_uint8s (big_ints xs) = panicked

-- `next().([]bool)`: any other type panics.
unfoldable pub to_bools : AbiArray → Outcome (List Bool)
to_bools (addresses xs) = panicked
to_bools (uint8s xs) = panicked
to_bools (bools xs) = done xs
to_bools (uint32s xs) = panicked
to_bools (big_ints xs) = panicked

-- `next().([]uint32)`: any other type panics.
unfoldable pub to_uint32s : AbiArray → Outcome (List ℕ)
to_uint32s (addresses xs) = panicked
to_uint32s (uint8s xs) = panicked
to_uint32s (bools xs) = panicked
to_uint32s (uint32s xs) = done xs
to_uint32s (big_ints xs) = panicked

-- `next().([]*big.Int)`: any other type panics.
unfoldable pub to_big_ints : AbiArray → Outcome (List ℕ)
to_big_ints (addresses xs) = panicked
to_big_ints (uint8s xs) = panicked
to_big_ints (bools xs) = panicked
to_big_ints (uint32s xs) = panicked
to_big_ints (big_ints xs) = done xs

-- The sixteen parallel arrays that `getValidators` returns.
pub record Columns : Type 0 where
  pub masters : List ℕ
  pub endorsors : List ℕ
  pub statuses : List ℕ
  pub onlines : List Bool
  pub offline_blocks : List ℕ
  pub staking_period_lengths : List ℕ
  pub start_blocks : List ℕ
  pub exit_blocks : List ℕ
  pub completed_periods : List ℕ
  pub validator_locked_vets : List ℕ
  pub validator_locked_weights : List ℕ
  pub delegators_stakes : List ℕ
  pub validator_queued_stakes : List ℕ
  pub total_queued_stakes : List ℕ
  pub exiting_stakes : List ℕ
  pub next_period_weights : List ℕ

-- The sixteen casts, each of the next value; there is a panic when there is none.
unfoldable pub columns_of : List AbiArray → Outcome Columns
unfolding to_addresses to_uint8s to_bools to_uint32s to_big_ints
columns_of out = do
  masters ← at out 0 >>= to_addresses
  endorsors ← at out 1 >>= to_addresses
  statuses ← at out 2 >>= to_uint8s
  onlines ← at out 3 >>= to_bools
  offline_blocks ← at out 4 >>= to_uint32s
  staking_period_lengths ← at out 5 >>= to_uint32s
  start_blocks ← at out 6 >>= to_uint32s
  exit_blocks ← at out 7 >>= to_uint32s
  completed_periods ← at out 8 >>= to_uint32s
  validator_locked_vets ← at out 9 >>= to_big_ints
  validator_locked_weights ← at out 10 >>= to_big_ints
  delegators_stakes ← at out 11 >>= to_big_ints
  validator_queued_stakes ← at out 12 >>= to_big_ints
  total_queued_stakes ← at out 13 >>= to_big_ints
  exiting_stakes ← at out 14 >>= to_big_ints
  next_period_weights ← at out 15 >>= to_big_ints
  done (record {
    masters = masters;
    endorsors = endorsors;
    statuses = statuses;
    onlines = onlines;
    offline_blocks = offline_blocks;
    staking_period_lengths = staking_period_lengths;
    start_blocks = start_blocks;
    exit_blocks = exit_blocks;
    completed_periods = completed_periods;
    validator_locked_vets = validator_locked_vets;
    validator_locked_weights = validator_locked_weights;
    delegators_stakes = delegators_stakes;
    validator_queued_stakes = validator_queued_stakes;
    total_queued_stakes = total_queued_stakes;
    exiting_stakes = exiting_stakes;
    next_period_weights = next_period_weights;
  })
