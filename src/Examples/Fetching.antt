-- ===== src/Examples/Fetching.antt =====
-- The theorems on fetched blocks, events and what the two ends of the pipeline do with them, at a node
-- whose identifiers carry the numbers.
use mathlib.Core.List.Perm
use thorflux.Base.{
  ℕ, ◌-◌, ◌*◌, ◌^◌, ◌≡◌, refl, true, false, Option, none, some, List, [], ◌∷◌, arith, All,
}
use thorflux.Chain.{
  Block, Result, ok, err, not_found, failure, Revision, at_number, at_id, finalized, best,
  justified, wrapped,
}
use thorflux.Types.{StakerInformation}
use thorflux.Stats.Outcome.{Outcome, done, failed, panicked, ◌>>=◌, slice_from}
use thorflux.Retry.{retry_increasing, retry_loop, retry_round}
use thorflux.Pubsub.Fetcher.{
  Node, FetchResult, Settings, id_number, check_status, seed_of_number, seed_number, seed_or_empty,
  fetch_seed, future_seed_of, staker_of, auth_nodes_of, fetch_once, store_result, fetch_block,
}
use thorflux.Pubsub.Fetcher.Seeds.{fetch_once_next_seed}
use thorflux.Pubsub.Fetcher.Caching.{AskedWith, IsFetched, empty-IsFetched, fetch_block-IsFetched}
use thorflux.Pubsub.Events.Complete.{process_block-Promises, Promises}
use thorflux.Pubsub.Events.{BlockEvent, BlockSource, process_block, with_current, with_previous}
use thorflux.Pubsub.Events.Source.{cached_source}
use thorflux.Pubsub.Forward.{
  Answers, forward_step, with_next, send_block, send_fork, fork_event, first_ok, forward_run,
}
use thorflux.Pubsub.Forward.Trace.{Agrees, Follows, forward_run-Follows}
use thorflux.Pubsub.Subscriber.{
  Handler, Received, handlers, subscribe, handle_event, handle_by_fork, update_synced,
}
use thorflux.Pubsub.Subscriber.Handled.{
  CarryAll, events_for, forks_in, plain_in, resolved, subscribe-CarryAll,
}
use thorflux.Examples.Data.{block_of, one_entry_cache, root, best_2, side_3}

abbrev numbered : ℕ → Block
numbered n = block_of n (n * 2 ^ 224) ((n - 1) * 2 ^ 224)

abbrev by_number : Revision → Result Block
by_number (at_number n) = ok (numbered n)
by_number (at_id id) = err not_found
by_number finalized = err not_found
by_number best = err not_found
by_number justified = err not_found

abbrev id_by_number : Revision → Result ℕ
id_by_number (at_number n) = ok (n * 2 ^ 224)
id_by_number (at_id id) = err not_found
id_by_number finalized = err not_found
id_by_number best = err not_found
id_by_number justified = err not_found

abbrev no_stakers : StakerInformation
no_stakers = record {
  validations = [];
  contract_balance = 0;
  queued_vet = 0;
  total_vet = 0;
  total_weight = 0;
  total_supply = 0;
  total_burned = 0;
  cooldown_vet = 0;
  withdrawable_vet = 0;
}

-- The beta of each raw block is one byte.
abbrev node : Node
node = record {
  expanded_block = by_number;
  block_id = id_by_number;
  raw_block = λ id. ok (200, "raw");
  unmarshal_raw = λ body. ok (b'0' ∷ b'x' ∷ b'9' ∷ []);
  decode_beta = λ digits. ok (9 ∷ []);
  fetch_validations = λ id. done no_stakers;
  fetch_authority_nodes = λ id. done [];
}

abbrev settings : Settings
settings = record { hayabusa_forked_block = 15; hayabusa_active_block = 25; seeder_interval = 10 }

abbrev fetched : ℕ → List ℕ → FetchResult
fetched n seed = record {
  block = numbered n;
  seed = seed;
  staker = some no_stakers;
  auth_nodes = [];
  future_seed = 9 ∷ [];
}

-- Block 19 has no seed, but it is the last of its epoch and announces one.
test-fetch_once : fetch_once settings node 19 ≡ done (fetched 19 [])
unfolding fetch_once fetch_seed future_seed_of staker_of auth_nodes_of id_number seed_number
    seed_or_empty seed_of_number check_status slice_from ◌>>=◌
test-fetch_once = refl

test-fetch_once_next : fetch_once settings node 20 ≡ done (fetched 20 (9 ∷ []))
unfolding fetch_once fetch_seed future_seed_of staker_of auth_nodes_of id_number seed_number
    seed_or_empty seed_of_number check_status slice_from ◌>>=◌
test-fetch_once_next = refl

test-fetch_once_error :
    fetch_once settings (record node { raw_block = λ id. ok (404, "") }) 19
    ≡ failed (wrapped "failed to fetch future seed" (failure "failed to fetch raw block"))
unfolding fetch_once fetch_seed future_seed_of staker_of auth_nodes_of id_number seed_number
    seed_or_empty seed_of_number check_status slice_from ◌>>=◌
test-fetch_once_error = refl

-- A raw block that is too short for its prefix.
test-fetch_once_panic :
    fetch_once settings (record node { unmarshal_raw = λ body. ok (b'0' ∷ []) }) 19 ≡ panicked
unfolding fetch_once fetch_seed future_seed_of staker_of auth_nodes_of id_number seed_number
    seed_or_empty seed_of_number check_status slice_from ◌>>=◌
test-fetch_once_panic = refl

fetch_once_next_seed_example : ◌≡◌ {A = List ℕ} (9 ∷ []) (9 ∷ [])
unfolding id_number
fetch_once_next_seed_example =
    fetch_once_next_seed settings node 19 (fetched 19 []) (fetched 20 (9 ∷ [])) (omega arith)
      (omega arith) refl refl refl test-fetch_once test-fetch_once_next

abbrev ticks : ℕ → ℕ
ticks j = j

abbrev stored : Option (ℕ × FetchResult)
stored = some (19, fetched 19 [])

test-fetch_block :
    fetch_block one_entry_cache settings none 19 (λ i. node) ticks 1
    ≡ some (done (fetched 19 []), stored)
unfolding fetch_block store_result retry_increasing retry_loop retry_round fetch_once fetch_seed
    future_seed_of staker_of auth_nodes_of id_number seed_number seed_or_empty seed_of_number
    check_status slice_from ◌>>=◌
test-fetch_block = refl

-- No node was asked before.
abbrev NoneAsked : Node → Type 0
NoneAsked n = ⊥

fetch_block-IsFetched_example :
    ((n : Node) × AskedWith NoneAsked (λ i. node) n
      × (fetch_once settings n 19 ≡ done (fetched 19 [])))
    × IsFetched one_entry_cache (AskedWith NoneAsked (λ i. node)) settings stored
fetch_block-IsFetched_example =
    fetch_block-IsFetched one_entry_cache NoneAsked settings none stored 19 (λ i. node) ticks 1
      (done (fetched 19 [])) (empty-IsFetched one_entry_cache NoneAsked settings) test-fetch_block

-- By now the node is down.
abbrev down : Node
down = record node { expanded_block = λ r. err not_found }

abbrev event_of_1 : BlockEvent
event_of_1 = record {
  fork = none;
  block = numbered 1;
  prev = none;
  hayabusa_status = record { active = false; forked = false };
  staker = none;
  parent_staker = none;
  seed = [];
  auth_nodes = [];
  parent_auth_nodes = [];
  future_seed = [];
}

abbrev source : BlockSource settings
source = cached_source settings one_entry_cache (λ k i. node) (λ k. ticks) (λ k j. omega arith)

-- Block 18 announces no seed: it is not the last of its epoch.
abbrev fetched_18 : FetchResult
fetched_18 = record (fetched 18 []) { future_seed = [] }

abbrev event_of_19 : BlockEvent
event_of_19 = record {
  fork = none;
  block = numbered 19;
  prev = some (numbered 18);
  hayabusa_status = record { active = false; forked = true };
  staker = some no_stakers;
  parent_staker = some no_stakers;
  seed = [];
  auth_nodes = [];
  parent_auth_nodes = [];
  future_seed = 9 ∷ [];
}

test-process_block :
    ◌≡◌ {A = Option (Outcome BlockEvent × (Option (ℕ × FetchResult) × ℕ))}
      (process_block source 19 (none, 0))
      (some (done event_of_19, (some (18, fetched_18), 2)))
unfolding process_block with_current with_previous fetch_block store_result retry_increasing
    retry_loop retry_round fetch_once fetch_seed future_seed_of staker_of auth_nodes_of id_number
    seed_number seed_or_empty seed_of_number check_status slice_from ◌>>=◌
test-process_block = refl

process_block-Promises_example :
    (r : Outcome BlockEvent) × (st' : Option (ℕ × FetchResult) × ℕ) × (process_block source 19
        (none, 0)
      ≡ some (r, st'))
    × source.IsGood st'
    × Promises source.Asked settings 19 r
process_block-Promises_example =
    process_block-Promises source 19 (none, 0)
      (empty-IsFetched one_entry_cache source.Asked settings)

-- Two rounds: the child of block 1, then a block that is no child of it.
abbrev round_of : Result Block → List (Result Block) → Result BlockEvent → Answers
round_of next tries processed = record {
  done = false;
  since_prev = 100;
  next = next;
  best_number = ok 3;
  finalized_tries = tries;
  processed = processed;
  done_sending = false;
}

abbrev event_of : Block → BlockEvent
event_of b = record event_of_1 { block = b }

abbrev two_rounds : List Answers
two_rounds =
    round_of (ok best_2) [] (ok (event_of best_2))
    ∷ round_of (ok side_3) (ok root ∷ []) (err not_found)
    ∷ []

two_rounds-Agrees : All Agrees two_rounds
two_rounds-Agrees = ((λ b ev h k. cc), ((λ b ev h k. absurd (cc)), tt))

abbrev two_events : List BlockEvent
two_events = event_of best_2 ∷ fork_event side_3 best_2 root ∷ []

test-forward_run : forward_run 10 two_rounds root ≡ (two_events, root)
unfolding forward_run forward_step with_next send_block send_fork first_ok
test-forward_run = refl

forward_run-Follows_example :
    Follows root (forward_run 10 two_rounds root).0 (forward_run 10 two_rounds root).1
forward_run-Follows_example = forward_run-Follows 10 two_rounds root two_rounds-Agrees

abbrev received : List Received
received = (handlers, 5, event_of best_2) ∷ (handlers, 5, fork_event side_3 best_2 root) ∷ []

test-subscribe : (subscribe false received).0 ≡ true
unfolding subscribe handle_event handle_by_fork update_synced fork_event
test-subscribe = refl

subscribe-CarryAll_example :
    (resolved (subscribe false received).1 ≡ forks_in received)
    × ((h : Handler) → CarryAll (plain_in received) (events_for h (subscribe false received).1))
subscribe-CarryAll_example = subscribe-CarryAll false received (Perm.rfl, (Perm.rfl, tt))
