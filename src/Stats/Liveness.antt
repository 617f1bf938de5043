-- ===== src/Stats/Liveness.antt =====
-- stats/liveness/liveness.go. Whether the block is younger than three minutes, and the node's answers,
-- are given.
pub mod Estimates
use thorflux.Base.{ℕ, ◌*◌, ◌/◌, Bool, if◌then◌else◌, u32, sub32}
use thorflux.Chain.{Block, Result, ok, err, Revision, Client}
use thorflux.Types.{Event}
use thorflux.Stats.Outcome.{Outcome, done, failed, panicked, ◌>>=◌, deref}

pub record LivenessPoint : Type 0 where
  pub current_epoch : ℕ
  pub epoch : ℕ
  pub current_block : ℕ
  pub finalized : ℕ
  pub justified_block : ℕ
  pub liveness : ℕ
  pub time : ℕ

unfoldable pub current_epoch_of : (epoch_length number : ℕ) → ℕ
current_epoch_of epoch_length number = u32 (number / epoch_length * epoch_length)

-- The fields with the finalized and the justified block; `liveness` is on uint32.
unfoldable pub liveness_point :
    (epoch_length : ℕ) → Event → (finalized justified : ℕ) → LivenessPoint
unfolding current_epoch_of
liveness_point epoch_length ev finalized justified =
    let current = current_epoch_of epoch_length ev.block.number in
    record {
      current_epoch = current;
      epoch = ev.block.number / epoch_length;
      current_block = ev.block.number;
      finalized = finalized;
      justified_block = justified;
      liveness = sub32 current finalized / epoch_length;
      time = ev.timestamp;
    }

-- Two epochs and one epoch before the current one, on uint32.
unfoldable pub estimated : (epoch_length : ℕ) → Event → LivenessPoint
unfolding liveness_point
estimated epoch_length ev =
    let current = current_epoch_of epoch_length ev.block.number in
    liveness_point epoch_length ev (sub32 current (u32 (epoch_length * 2)))
      (sub32 current epoch_length)

-- The error of the second request is ignored, and its nil block dereferenced.
abbrev pub number_of : Result Block → Outcome ℕ
number_of (ok b) = done b.number
number_of (err e) = panicked

unfoldable pub with_finalized :
    (epoch_length : ℕ) → Client → Event → Result Block → Outcome LivenessPoint
unfolding estimated
with_finalized epoch_length client ev (err e) = done (estimated epoch_length ev)
with_finalized epoch_length client ev (ok finalized) =
    number_of (client.expanded_block Revision.justified)
    >>= (λ justified. done (liveness_point epoch_length ev finalized.number justified))

-- `Write`.
unfoldable pub write :
    (epoch_length : ℕ) → Client → (is_recent : Bool) → Event → Outcome LivenessPoint
unfolding with_finalized
write epoch_length client is_recent ev =
    let asked = with_finalized epoch_length client ev (client.expanded_block Revision.finalized) in
    if is_recent then asked else done (estimated epoch_length ev)
