-- ===== src/Pubsub/Forward.antt =====
-- pubsub/forward_syncer.go: one round of the loop of `Start` as a step on the previous block, and its
-- run. What the clock, the context and the node answer in a round is given. A panic of `ProcessBlock`
-- ends the program, so it is no answer of a round.
pub mod Trace
use thorflux.Base.{
  ℕ, Bool, true, false, Option, none, some, List, [], ◌∷◌, ltb, ◌==◌, if◌then◌else◌,
}
use thorflux.Chain.{failure, wrapped, Block, Error, Result, ok, err, not_found}
use thorflux.Pubsub.Events.{BlockEvent, ForkEvent}

-- The answers of one round: whether the context has ended at the head of the loop and at the last
-- `select`; the time since the previous block, in nanoseconds (time.Duration); the next block and the
-- best block's number; the answers to the request for the finalized block, until one succeeds; and
-- what `ProcessBlock` returns for the next number.
pub record Answers : Type 0 where
  pub done : Bool
  pub since_prev : ℕ
  pub next : Result Block
  pub best_number : Result ℕ
  pub finalized_tries : List (Result Block)
  pub processed : Result BlockEvent
  pub done_sending : Bool

-- How a round ends: the loop goes on, or `Start` returns, or the process exits, or the round is still
-- asking for the finalized block.
pub data Ending : Type 0 where
  continued returned exited asking : Ending

-- What a round sends, the block that `prev` holds behind it, and how it ends.
abbrev pub Outcome : Type 0
Outcome = Option BlockEvent × Block × Ending

-- `errors.Is(err, httpclient.ErrNotFound)`.
unfoldable pub is_not_found : Error → Bool
is_not_found not_found = true
is_not_found (failure msg) = false
is_not_found (wrapped msg e) = is_not_found e

unfoldable pub above_best : ℕ → Result ℕ → Bool
above_best prev_number (err e) = false
above_best prev_number (ok n) = ltb n prev_number

unfoldable pub database_ahead : ℕ → Error → Result ℕ → Bool
unfolding is_not_found above_best
database_ahead prev_number e best_number =
    if is_not_found e then above_best prev_number best_number else false

-- The inner `for` that retries until the finalized block is there.
unfoldable pub first_ok {ℓ} : {A : Type ℓ} → List (Result A) → Option A
first_ok [] = none
first_ok (ok a ∷ rest) = some a
first_ok (err e ∷ rest) = first_ok rest

unfoldable pub fork_event : (next prev finalized : Block) → BlockEvent
fork_event next prev finalized = record {
  fork = some (record { best = next; finalized = finalized; side_chain = prev });
  block = finalized;
  prev = none;
  hayabusa_status = record { active = false; forked = false };
  staker = none;
  parent_staker = none;
  seed = [];
  auth_nodes = [];
  parent_auth_nodes = [];
  future_seed = [];
}

unfoldable pub send_fork : (next prev : Block) → Option Block → Outcome
unfolding fork_event
send_fork next prev none = (none, prev, asking)
send_fork next prev (some finalized) = (some (fork_event next prev finalized), finalized, continued)

unfoldable pub send_block : (next prev : Block) → Bool → Result BlockEvent → Outcome
send_block next prev done_sending (err e) = (none, prev, continued)
send_block next prev done_sending (ok ev) =
    if done_sending then (none, prev, returned) else (some ev, next, continued)

unfoldable pub with_next : Answers → Block → Result Block → Outcome
unfolding database_ahead first_ok send_fork send_block
with_next a prev (err e) =
    if database_ahead prev.number e a.best_number
    then (none, prev, exited)
    else (none, prev, continued)
with_next a prev (ok next) =
    if next.parent_id == prev.id
    then send_block next prev a.done_sending a.processed
    else send_fork next prev (first_ok a.finalized_tries)

-- `interval` is `thor.BlockInterval()`, which the code turns into a time.Duration as it is.
unfoldable pub forward_step : ℕ → Answers → Block → Outcome
unfolding with_next
forward_step interval a prev =
    if a.done
    then (none, prev, returned)
    else if ltb a.since_prev interval
    then (none, prev, continued)
    else with_next a prev a.next

abbrev pub push_sent : Option BlockEvent → List BlockEvent → List BlockEvent
push_sent none sent = sent
push_sent (some ev) sent = ev ∷ sent

-- What the events of the later rounds and their last block become, if the loop goes on.
abbrev pub end_round :
    Option BlockEvent → Block → List BlockEvent → Block → Ending → List BlockEvent × Block
end_round ev mid sent last continued = (push_sent ev sent, last)
end_round ev mid sent last _ = (push_sent ev [], mid)

-- The rounds for as long as the loop goes on: the events sent, in order, and the last `prev`.
unfoldable pub forward_run : ℕ → List Answers → Block → List BlockEvent × Block
unfolding forward_step
forward_run interval [] prev = ([], prev)
forward_run interval (a ∷ rest) prev =
    let (ev, prev', ending) = forward_step interval a prev in
    let (sent, last) = forward_run interval rest prev' in end_round ev prev' sent last ending
