-- ===== src/Stats/Pos/SlotPoints.antt =====
-- `createSlotPoints` of stats/pos/writer.go.
use thorflux.Base.{ℕ, ◌%◌, String, not, List, [], map, if◌then◌else◌}
use thorflux.Types.{StakerInformation, Event}
use thorflux.Stats.Outcome.{Outcome, done, ◌>>=◌, returned, deref}
use thorflux.Stats.Slots.{Floats}
use thorflux.Stats.Pos.{NewScheduler, MissedSlot, missed_slots, FutureSlot, future_slots}

pub record MissedPoint : Type 0 where
  pub signer : ℕ
  pub block_number : ℕ
  pub time : ℕ

pub record OfflineMissedPoint : Type 0 where
  pub signer : ℕ
  pub miss_type : String
  pub block_number : ℕ
  pub time : ℕ

pub record FuturePoint : Type 0 where
  pub signer : ℕ
  pub index : ℕ
  pub block_number : ℕ
  pub block_in_epoch : ℕ
  pub time : ℕ

pub record SlotPoints : Type 0 where
  pub missed : List MissedPoint
  pub offline_missed : List OfflineMissedPoint
  pub future : List FuturePoint

abbrev pub no_slot_points : SlotPoints
no_slot_points = record { missed = []; offline_missed = []; future = [] }

unfoldable pub missed_point : Event → MissedSlot → MissedPoint
missed_point ev m = record {
  signer = m.signer;
  block_number = ev.block.number;
  time = ev.timestamp;
}

unfoldable pub offline_missed_point : Event → MissedSlot → OfflineMissedPoint
offline_missed_point ev m = record {
  signer = m.signer;
  miss_type = if not m.was_online then "previously-offline" else "went-offline";
  block_number = ev.block.number;
  time = ev.timestamp;
}

unfoldable pub future_point : (epoch_length : ℕ) → Event → FutureSlot → FuturePoint
future_point epoch_length ev f = record {
  signer = f.signer;
  index = f.index;
  block_number = f.block;
  block_in_epoch = f.block % epoch_length;
  time = ev.timestamp;
}

unfoldable pub create_slot_points :
    {F : Type 0}
    → NewScheduler
    → (List ℕ → ℕ → Floats F)
    → (interval epoch_length : ℕ) → Event
    → StakerInformation
    → Outcome SlotPoints
unfolding missed_point offline_missed_point future_point
create_slot_points sched floats interval epoch_length ev info =
    if not ev.hayabusa_status.active
    then done no_slot_points
    else deref ev.prev >>= (λ prev.
      returned (missed_slots sched interval prev ev.block info.validations ev.seed) >>= (λ missed.
        deref (future_slots floats epoch_length info.validations ev.block ev.seed) >>= (λ future.
          done (record {
            missed = map (missed_point ev) missed.0;
            offline_missed = map (offline_missed_point ev) missed.1;
            future = map (future_point epoch_length ev) future;
          }))))
