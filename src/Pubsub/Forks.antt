-- ===== src/Pubsub/Forks.antt =====
-- pubsub/fork_handler.go: `Resolve` deletes what lies after the finalized block, walks the side chain
-- back to the fork point, and writes its blocks.
pub mod Branch
pub mod Total
pub mod Written
use thorflux.Base.{
  ℕ, zero, suc, ◌+◌, ◌-◌, String, Option, none, some, List, [], ◌∷◌, ◌++◌, map, ltb, ◌==◌,
  if◌then◌else◌, length,
}
use thorflux.Chain.{Block, Error, Result, ok, err, wrapped, failure, at_number, at_id, Client}

-- `for bestNum > sideNum { bestNum-- }`.
unfoldable pub reduce_to : (best_num side_num : ℕ) → ℕ
reduce_to zero side_num = zero
reduce_to (suc n) side_num = if ltb side_num (suc n) then reduce_to n side_num else suc n

-- What one round of the loop does with the parents of the two blocks.
pub data Round : Type 0 where
  stopped : Error → Round
  joined : Round
  reached_finalized : Round
  go_on : Block → Block → Round

-- `data` of two fetches, then the two tests.
unfoldable pub compare_parents : ℕ → Block → Block → Round
compare_parents finalized_number best side =
    if side.id == best.id
    then joined
    else if side.number == finalized_number
    then reached_finalized
    else go_on best side

unfoldable pub fetch_side : Client → ℕ → Block → Block → Round
unfolding compare_parents
fetch_side c finalized_number best prev = elim (c.expanded_block (at_id prev.parent_id)) [
  | err e ↦ stopped e
  | ok side ↦ compare_parents finalized_number best side
]

unfoldable pub round : Client → ℕ → Block → Block → Round
unfolding fetch_side
round c finalized_number best prev = elim (c.expanded_block (at_id best.parent_id)) [
  | err e ↦ stopped e
  | ok best' ↦ fetch_side c finalized_number best' prev
]

-- The end of a round: `again` is the loop with the two parents for the two blocks.
unfoldable pub next_round :
    (Block → Block → Option (Result (List Block)))
    → List Block
    → Round
    → Option (Result (List Block))
next_round again acc (stopped e) = some (err e)
next_round again acc joined = some (ok acc)
next_round again acc reached_finalized = some (err (failure "failed to find common ancestor"))
next_round again acc (go_on best side) = again best side

-- The endless `for` on fuel: `none` means that the fuel ran out. `acc` is `sideChain`, whose last
-- element is `prev`.
unfoldable pub side_loop :
    Client → ℕ → ℕ → Block → Block → List Block → Option (Result (List Block))
unfolding next_round
side_loop c finalized_number zero best prev acc = none
side_loop c finalized_number (suc fuel) best prev acc =
    next_round (λ best' side. side_loop c finalized_number fuel best' side (acc ++ side ∷ [])) acc
      (round c finalized_number best prev)

-- Past the first fetch: equal blocks have no side chain.
unfoldable pub from_height : Client → Block → ℕ → ℕ → Block → Option (Result (List Block))
from_height c side finalized_number fuel best_chain_block =
    if best_chain_block.id == side.id
    then some (ok [])
    else side_loop c finalized_number fuel best_chain_block side (side ∷ [])

unfoldable pub get_side_chain :
    Client → (best side finalized : Block) → ℕ → Option (Result (List Block))
unfolding from_height reduce_to
get_side_chain c best side finalized fuel =
    if ltb best.number side.number
    then some (err (failure "side chain above best chain"))
    else elim (c.expanded_block (at_number (reduce_to best.number side.number))) [
      | err e ↦ some (err e)
      | ok b ↦ from_height c side finalized.number fuel b
    ]

-- A point of the measurement "forks": its tags, its fields and its time.
pub record ForkPoint : Type 0 where
  pub group : ℕ
  pub signer : ℕ
  pub number : ℕ
  pub parent_id : ℕ
  pub id : ℕ
  pub score : ℕ
  pub length : ℕ
  pub index : ℕ
  pub time : ℕ

unfoldable pub fork_point : (group len i : ℕ) → Block → ForkPoint
fork_point group len i b = record {
  group = group;
  signer = b.signer;
  number = b.number;
  parent_id = b.parent_id;
  id = b.id;
  score = b.total_score;
  length = len;
  index = len - i;
  time = b.timestamp;
}

-- The loop of `writeForkedBlock`, from index `i`.
unfoldable pub write_from : (group len i : ℕ) → List Block → List ForkPoint
unfolding fork_point
write_from group len i [] = []
write_from group len i (b ∷ bs) = fork_point group len i b ∷ write_from group len (i + 1) bs

unfoldable pub write_forked_block : List Block → List ForkPoint
unfolding write_from
write_forked_block [] = []
write_forked_block (b ∷ bs) = write_from b.id (length (b ∷ bs)) 0 (b ∷ bs)

-- The measurements that the predicate of the deletion keeps: `ForkMeasurement`, `priceapi.Measurement`.
abbrev pub kept_measurements : List String
kept_measurements = "forks" ∷ "price_api" ∷ []

-- What a handler does to the database, in order.
pub data DbOp : Type 0 where
  delete_between : (start stop : ℕ) → (kept : List String) → DbOp
  write_fork : ForkPoint → DbOp

-- `Resolve` after the deletion has succeeded.
unfoldable pub finish_resolve :
    DbOp → Option (Result (List Block)) → Option (List DbOp × Result (Unit {0}))
unfolding write_forked_block
finish_resolve deletion none = none
finish_resolve deletion (some (err e)) = some (deletion ∷ [], err e)
finish_resolve deletion (some (ok blocks)) =
    some (deletion ∷ map write_fork (write_forked_block blocks), ok tt)

-- `Resolve` at time `now` (seconds); `deleted` is the answer of the database to the deletion.
unfoldable pub resolve :
    Client
    → (now : ℕ) (deleted : Result (Unit {0})) (best side finalized : Block) → ℕ
    → Option (List DbOp × Result (Unit {0}))
unfolding finish_resolve
resolve c now deleted best side finalized fuel =
    let deletion = delete_between (finalized.timestamp + 1) (now + 3600) kept_measurements in
    elim deleted [
      | err e ↦
          some (deletion ∷ [], err (wrapped "failed to delete points after finalized block" e))
      | ok _ ↦ finish_resolve deletion (get_side_chain c best side finalized fuel)
    ]
