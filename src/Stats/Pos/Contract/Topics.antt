-- ===== src/Stats/Pos/Contract/Topics.antt =====
-- `createBlockPoints` of stats/pos/writer.go: the events of the staker contract, by their first topic.
use thorflux.Base.{
  ℕ, String, not, Option, none, some, List, [], ◌∷◌, ◌++◌, map, ◌==◌, if◌then◌else◌, flatten,
}
use thorflux.Chain.{LogEvent, Output, Tx}
use thorflux.Stats.Outcome.{Outcome, done, ◌>>=◌, at}

-- `eventABIs`, from the topic to the name of the event.
unfoldable pub event_name : ℕ → List (ℕ × String) → Option String
event_name topic [] = none
event_name topic ((t, name) ∷ abis) = if t == topic then some name else event_name topic abis

-- `eventsByTopic[topic] = append(eventsByTopic[topic], log)`.
unfoldable pub add_log : ℕ → LogEvent → List (ℕ × List LogEvent) → List (ℕ × List LogEvent)
add_log topic log [] = (topic, log ∷ []) ∷ []
add_log topic log ((t, logs) ∷ m) =
    let rest = add_log topic log m in
    if t == topic then (t, logs ++ log ∷ []) ∷ m else (t, logs) ∷ rest

-- A log of the staker contract without topics panics.
unfoldable pub add_logs :
    (staker_address : ℕ)
    → List (ℕ × List LogEvent)
    → List LogEvent
    → Outcome (List (ℕ × List LogEvent))
unfolding add_log
add_logs staker_address m [] = done m
add_logs staker_address m (log ∷ logs) =
    let skipped = add_logs staker_address m logs in
    if not (log.address == staker_address)
    then skipped
    else at log.topics 0 >>= (λ topic. add_logs staker_address (add_log topic log m) logs)

-- The logs of a block in the order of the three loops.
unfoldable pub logs_of : List Tx → List LogEvent
logs_of txs = flatten (map (λ (t : Tx). flatten (map (λ (o : Output). o.events) t.outputs)) txs)

unfoldable pub events_by_topic : (staker_address : ℕ) → List Tx → Outcome (List (ℕ × List LogEvent))
unfolding add_logs logs_of
events_by_topic staker_address txs = add_logs staker_address [] (logs_of txs)
