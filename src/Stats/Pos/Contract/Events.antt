-- ===== src/Stats/Pos/Contract/Events.antt =====
-- `ProcessEvents` of stats/pos/event_processors.go. The order in which Go ranges over the events by
-- topic is the order of the list.
use text.Mathlib.Text.{◌==◌}
use thorflux.Base.{
  ℕ, ◌+◌, String, Option, none, some, List, [], ◌∷◌, ◌++◌, map, if◌then◌else◌, flatten, count,
}
use thorflux.Chain.{LogEvent}
use thorflux.Stats.Outcome.{Outcome, done, failed, panicked, ◌>>=◌, at}
use thorflux.Stats.Pos.Contract.{Value, number, name_text, ContractPoint, Staker, Kind, kind_of}
use thorflux.Stats.Pos.Contract.Topics.{event_name}
use thorflux.Stats.Pos.Contract.Processors.{process}

-- `eventCounts[name]++`; every name of an ABI has an entry.
unfoldable pub count_event : String → List (String × ℕ) → List (String × ℕ)
count_event name [] = (name, 1) ∷ []
count_event name ((k, n) ∷ counts) =
    let rest = count_event name counts in if k == name then (k, n + 1) ∷ counts else (k, n) ∷ rest

-- The variables of the loop. A nil point is `none`.
pub record Processed : Type 0 where
  pub points : List (Option ContractPoint)
  pub event_counts : List (String × ℕ)

-- What a processor returned: an error is logged, a point is appended.
unfoldable pub append_point : Processed → Outcome (Option ContractPoint) → Outcome Processed
append_point s (done p) = done (record s { points = s.points ++ p ∷ [] })
append_point s (failed e) = done s
append_point s panicked = panicked

-- One log, from its name and its kind on.
unfoldable pub process_kind :
    Staker → (rev time : ℕ) → Processed → LogEvent → String → Option Kind → Outcome Processed
unfolding count_event append_point
process_kind staker rev time s log name none = done s
process_kind staker rev time s log name (some kind) =
    append_point (record s { event_counts = count_event name s.event_counts })
      (process staker kind rev name log time)

unfoldable pub process_named :
    Staker → (rev time : ℕ) → Processed → LogEvent → Option String → Outcome Processed
unfolding process_kind
process_named staker rev time s log none = done s
process_named staker rev time s log (some name) =
    process_kind staker rev time s log name (kind_of name)

-- A log without topics panics.
unfoldable pub process_log :
    Staker → List (ℕ × String) → (rev time : ℕ) → Processed → LogEvent → Outcome Processed
unfolding process_named event_name
process_log staker abis rev time s log = do
  topic ← at log.topics 0
  process_named staker rev time s log (event_name topic abis)

unfoldable pub process_logs :
    Staker → List (ℕ × String) → (rev time : ℕ) → Processed → List LogEvent → Outcome Processed
unfolding process_log
process_logs staker abis rev time s [] = done s
process_logs staker abis rev time s (log ∷ logs) = do
  next ← process_log staker abis rev time s log
  process_logs staker abis rev time next logs

-- `eventCounts[e.Name] = 0` for each ABI.
unfoldable pub reset_count : String → List (String × ℕ) → List (String × ℕ)
reset_count name [] = (name, 0) ∷ []
reset_count name ((k, n) ∷ counts) =
    let rest = reset_count name counts in if k == name then (k, 0) ∷ counts else (k, n) ∷ rest

unfoldable pub initial_counts : List (ℕ × String) → List (String × ℕ)
unfolding reset_count
initial_counts [] = []
initial_counts ((t, name) ∷ abis) = reset_count name (initial_counts abis)

-- `AddTag` and `AddField` of the client library: a value under a key that is there is replaced.
unfoldable pub put_value : String → Value → List (String × Value) → List (String × Value)
put_value key v [] = (key, v) ∷ []
put_value key v ((k, w) ∷ values) =
    let rest = put_value key v values in if k == key then (k, v) ∷ values else (k, w) ∷ rest

-- The loop over the map of the counts, in the order of the list.
unfoldable pub add_counts : ContractPoint → List (String × ℕ) → ContractPoint
unfolding put_value
add_counts p [] = p
add_counts p ((name, count) ∷ counts) =
    add_counts
      (record p {
        tags = put_value "event" (name_text name) p.tags;
        fields = put_value "count" (number count) p.fields;
      })
      counts

-- The point of the counts, if there are any.
unfoldable pub count_points : (time : ℕ) → List (String × ℕ) → List (Option ContractPoint)
unfolding add_counts
count_points time [] = []
count_points time (c ∷ counts) =
    some (
      add_counts
        (record { measurement = "staker_event_counts"; tags = []; fields = []; time = time })
        (c ∷ counts))
    ∷ []

-- `ProcessEvents`; `range` visits the map of the counts.
unfoldable pub process_events :
    Staker
    → (range : List (String × ℕ) → List (String × ℕ)) → List (ℕ × String)
    → (rev time : ℕ) → List (ℕ × List LogEvent)
    → Outcome (List (Option ContractPoint))
unfolding process_logs initial_counts count_points
process_events staker range abis rev time events = do
  let start : Processed = record { points = []; event_counts = initial_counts abis }
  s ← process_logs staker abis rev time start (flatten (map (λ e. e.1) events))
  done (s.points ++ count_points time (range s.event_counts))
