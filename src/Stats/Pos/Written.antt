-- ===== src/Stats/Pos/Written.antt =====
-- `createBlockPoints` and `Write` of stats/pos/writer.go.
pub mod Missing
pub mod Composed
use text.Mathlib.Text.{◌==◌}
use thorflux.Base.{
  ℕ, String, Bool, true, false, not, Option, none, some, List, [], ◌∷◌, ◌++◌, map, ltb,
  if◌then◌else◌, length,
}
use thorflux.Chain.{LogEvent}
use thorflux.Types.{StakerInformation, AddressMap, Event}
use thorflux.Stats.Outcome.{Outcome, done, failed, panicked, ◌>>=◌, deref}
use thorflux.Stats.Slots.{Floats}
use thorflux.Stats.Pos.{NewScheduler}
use thorflux.Stats.Pos.Individual.{ExitPoint, ValidatorPoint, create_single_validator_stats}
use thorflux.Stats.Pos.Energy.{EnergyPoint, create_energy_stats}
use thorflux.Stats.Pos.SlotPoints.{
  MissedPoint, OfflineMissedPoint, FuturePoint, SlotPoints, no_slot_points, create_slot_points,
}
use thorflux.Stats.Pos.OverviewPoint.{OverviewPoint, create_validator_overview}
use thorflux.Stats.Pos.Contract.{Value, ContractPoint, Staker}
use thorflux.Stats.Pos.Contract.Topics.{event_name, events_by_topic}
use thorflux.Stats.Pos.Contract.Events.{process_events}

-- What the writer holds and calls, and the orders in which Go ranges over its maps.
pub record Writer (F : Type 0) : Type 0 where
  pub interval : ℕ
  pub epoch_length : ℕ
  pub staker_address : ℕ
  pub staker : Staker
  pub event_abis : List (ℕ × String)
  pub sched : NewScheduler
  pub floats : List ℕ → ℕ → Floats F
  pub fetch_validations : (id : ℕ) → Outcome StakerInformation
  pub range_validators : AddressMap → AddressMap
  pub range_topics : List (ℕ × List LogEvent) → List (ℕ × List LogEvent)
  pub range_counts : List (String × ℕ) → List (String × ℕ)

-- `flags[abiEvent.Name] = len(events)`.
unfoldable pub set_flag : String → ℕ → List (String × ℕ) → List (String × ℕ)
set_flag name n [] = (name, n) ∷ []
set_flag name n ((k, m) ∷ flags) =
    let rest = set_flag name n flags in if k == name then (k, n) ∷ flags else (k, m) ∷ rest

abbrev pub set_named : Option String → ℕ → List (String × ℕ) → List (String × ℕ)
set_named none n flags = flags
set_named (some name) n flags = set_flag name n flags

unfoldable pub flags_from :
    List (ℕ × String) → List (String × ℕ) → List (ℕ × List LogEvent) → List (String × ℕ)
unfolding set_flag event_name
flags_from abis flags [] = flags
flags_from abis flags ((topic, logs) ∷ events) =
    flags_from abis (set_named (event_name topic abis) (length logs) flags) events

-- The points of the events and of their counts, and the fields of "staker_events", which is written if
-- there are two or more.
pub record BlockPoints : Type 0 where
  pub points : List (Option ContractPoint)
  pub event_totals : Option (List (String × ℕ))

abbrev pub no_block_points : BlockPoints
no_block_points = record { points = []; event_totals = none }

unfoldable pub create_block_points : {F : Type 0} → Writer F → Event → Outcome BlockPoints
unfolding flags_from
create_block_points w ev = do
  by_topic ← events_by_topic w.staker_address ev.block.transactions
  let events = w.range_topics by_topic
  points ← process_events w.staker w.range_counts w.event_abis ev.block.id ev.timestamp events
  let flags = flags_from w.event_abis [] events
  done
      (record { points = points; event_totals = if ltb 1 (length flags) then some flags else none })

pub data StakerPoint : Type 0 where
  exited : ExitPoint → StakerPoint
  individual : ValidatorPoint → StakerPoint
  overview : OverviewPoint → StakerPoint
  energy : EnergyPoint → StakerPoint
  contract_event : ContractPoint → StakerPoint
  event_totals : List (String × ℕ) → StakerPoint
  missed_slot : MissedPoint → StakerPoint
  offline_missed_slot : OfflineMissedPoint → StakerPoint
  future_slot : FuturePoint → StakerPoint

abbrev pub has_fields : List (String × Value) → Bool
has_fields [] = false
has_fields (f ∷ fields) = true

-- The second loop of `Write`: a nil point or one without fields is left out. The points that have
-- their own record have fields.
unfoldable pub valid_points : List (Option ContractPoint) → List StakerPoint
valid_points [] = []
valid_points (none ∷ ps) = valid_points ps
valid_points (some p ∷ ps) =
    let rest = valid_points ps in if has_fields p.fields then contract_event p ∷ rest else rest

unfoldable pub total_points : Option (List (String × ℕ)) → List StakerPoint
total_points none = []
total_points (some flags) = event_totals flags ∷ []

unfoldable pub block_points : BlockPoints → List StakerPoint
unfolding valid_points total_points
block_points b = valid_points b.points ++ total_points b.event_totals

unfoldable pub slot_points : SlotPoints → List StakerPoint
slot_points s =
    map missed_slot s.missed
    ++ (map offline_missed_slot s.offline_missed ++ map future_slot s.future)

-- An error of `createBlockPoints` or `createSlotPoints` is logged.
abbrev pub or_logged {ℓ} : {A : Type ℓ} → A → Outcome A → Outcome A
or_logged nothing (done a) = done a
or_logged nothing (failed e) = done nothing
or_logged nothing panicked = panicked

-- From both staker informations on; the parent's may still be nil.
unfoldable pub write_points :
    {F : Type 0} → Writer F → Event → StakerInformation → Outcome (List StakerPoint)
unfolding create_block_points block_points slot_points
write_points w ev info = do
  single ← create_single_validator_stats w.range_validators ev info
  energies ← deref (create_energy_stats w.epoch_length ev info)
  block ← or_logged no_block_points (create_block_points w ev)
  slots ←
      or_logged no_slot_points
        (create_slot_points w.sched w.floats w.interval w.epoch_length ev info)
  done (
      map exited single.exits
      ++ (map individual single.validators
          ++ (overview (create_validator_overview w.staker_address w.epoch_length ev info)
              ∷ (map energy energies ++ (block_points block ++ slot_points slots)))))

-- A missing parent staker is fetched; if that fails, it stays nil.
unfoldable pub keep_parent : Event → Outcome StakerInformation → Outcome Event
keep_parent ev (done parent) = done (record ev { parent_staker = some parent })
keep_parent ev (failed e) = done ev
keep_parent ev panicked = panicked

unfoldable pub fetch_parent :
    {F : Type 0} → Writer F → Event → Option StakerInformation → Outcome Event
unfolding keep_parent
fetch_parent w ev (some parent) = done ev
fetch_parent w ev none = keep_parent ev (w.fetch_validations ev.block.parent_id)

-- A missing staker is fetched; if that fails, nothing is written.
unfoldable pub with_fetched :
    {F : Type 0} → Writer F → Event → Outcome StakerInformation → Outcome (List StakerPoint)
unfolding write_points
with_fetched w ev (done info) = write_points w (record ev { staker = some info }) info
with_fetched w ev (failed e) = done []
with_fetched w ev panicked = panicked

unfoldable pub with_staker :
    {F : Type 0} → Writer F → Event → Option StakerInformation → Outcome (List StakerPoint)
unfolding write_points with_fetched
with_staker w ev (some info) = write_points w ev info
with_staker w ev none = with_fetched w ev (w.fetch_validations ev.block.id)

unfoldable pub write : {F : Type 0} → Writer F → Event → Outcome (List StakerPoint)
unfolding fetch_parent with_staker
write w ev =
    if not ev.hayabusa_status.forked
    then done []
    else fetch_parent w ev ev.parent_staker >>= (λ fetched. with_staker w fetched fetched.staker)
