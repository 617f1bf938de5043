-- ===== src/Examples/Piping.antt =====
-- The theorems on the block channel, at two blocks and at a full channel.
use thorflux.Base.{
  ℕ, zero, suc, ◌+◌, ◌≡◌, refl, inl, true, false, ◌&&◌, List, [], ◌∷◌, arith, ltb, leb,
  if◌then◌else◌, length, take, count,
}
use thorflux.Pubsub.Backward.{generate_work, start_work}
use thorflux.Pubsub.Backward.Workers as Workers
use thorflux.Pubsub.Backward.Workers.{Sync, start}
use thorflux.Pubsub.Pipeline.{
  Item, from_backward, from_forward, sending_fork, Flow, run, channel_buffer, backward_works,
  backward_sends, backward_returns, closes, receives, unsubscribes, cancels, FlowReach, here, next,
}
use thorflux.Pubsub.Pipeline.Delivered.{backward_numbers, FlowReach-received_once}
use thorflux.Pubsub.Pipeline.Promise.{Delivers, empty_log, delivery, FlowReach-Delivers}
use thorflux.Pubsub.Pipeline.Shutdown.{
  IsFinished, CanFinish, FlowReach-CanFinish, FlowReach-never_finishes,
}
use thorflux.Examples.Syncing.{two_blocks, halfway}

-- A flow of the blocks 3 and 2, with a given backward syncer.
abbrev with_backward : Sync → Flow
with_backward t = record (run two_blocks false) { backward = t }

abbrev both_held : Sync
both_held = record halfway { todo = []; busy = 2 ∷ 3 ∷ [] }

abbrev worked : Sync
worked = record halfway { todo = []; busy = []; sent = 3 ∷ []; failed = 2 ∷ [] }

abbrev over : Sync
over = record worked { closed = true }

abbrev done_flow : Flow
done_flow = record (with_backward over) {
  backward_returned = true;
  received = from_backward 3 ∷ [];
  closed = true;
  subscribed = false;
}

internal :
    {s : Flow} (t : Sync)
    → s.backward_returned ≡ false
    → Workers.Step s.backward t
    → t.sent ≡ s.backward.sent
    → t.cancelled ≡ s.backward.cancelled
    → FlowReach (run two_blocks false) s
    → FlowReach (run two_blocks false) (record s { backward = t })
internal t e st same context r =
    next r (backward_works t e (record { step = st; same_sent = same; same_context = context }))

held-FlowReach : FlowReach (run two_blocks false) (with_backward both_held)
unfolding start_work generate_work
held-FlowReach = internal both_held refl (Workers.receive 2 [] refl (omega arith)) refl refl (
    internal (record halfway { todo = []; queued = 2 ∷ [] }) refl
      (Workers.hand_out 2 [] refl refl (omega arith)) refl refl
      (internal halfway refl (Workers.receive 3 [] refl (omega arith)) refl refl (
        internal (record halfway { queued = 3 ∷ []; busy = [] }) refl
          (Workers.hand_out 3 (2 ∷ []) refl refl (omega arith)) refl refl here)))

-- Block 3 is sent and received, block 2 fails, and all return.
done-FlowReach : FlowReach (run two_blocks false) done_flow
done-FlowReach =
    let sent = next held-FlowReach (backward_sends 3 (2 ∷ []) [] refl refl refl (omega arith)) in
    let failed = internal worked refl (Workers.fail 2 [] [] refl) refl refl sent in
    let shut = internal over refl (Workers.close_work refl (inl refl)) refl refl failed in
    let received = next shut (receives (from_backward 3) [] refl refl) in
    let back = next received (backward_returns refl (refl, refl, inl refl)) in
    next (next back (closes refl refl refl)) (unsubscribes refl (inl (refl, refl)))

FlowReach-received_once_example :
    (done_flow.crashed ≡ false)
    × (done_flow.subscribed ≡ false
        → done_flow.cancelled ≡ false
        → (n : ℕ)
        → count n (backward_numbers done_flow.received) + count n done_flow.backward.failed
          ≡ (if ltb two_blocks.min_block n && leb n two_blocks.head then 1 else 0))
FlowReach-received_once_example = FlowReach-received_once two_blocks false done-FlowReach

-- The context ends while a worker holds block 3.
abbrev cancelled_flow : Flow
cancelled_flow = record (with_backward (record both_held { cancelled = true })) { cancelled = true }

cancelled-FlowReach : FlowReach (run two_blocks false) cancelled_flow
cancelled-FlowReach = next held-FlowReach cancels

FlowReach-CanFinish_example : CanFinish cancelled_flow
FlowReach-CanFinish_example =
    FlowReach-CanFinish two_blocks false cancelled-FlowReach refl (inl ((λ e. cc), (λ n e. cc)))

events : ℕ → List Item
events zero = []
events (suc n) = from_forward n ∷ events n

length-events : (n : ℕ) → length (events n) ≡ n
unfolding events
length-events zero = refl
length-events (suc n) = omega (arith, length-events n)

abbrev stuck_flow : Flow
stuck_flow = record done_flow {
  forward = sending_fork 5;
  channel = events channel_buffer;
  closed = false;
  cancelled = false;
}

FlowReach-never_finishes_example :
    (sending_fork 5 ≡ sending_fork 5)
    × (IsFinished
          (record stuck_flow { cancelled = true; backward = record over { cancelled = true } })
        → ⊥)
FlowReach-never_finishes_example =
    FlowReach-never_finishes {s = stuck_flow} refl refl
      (omega (arith, length-events channel_buffer)) (next here cancels)

FlowReach-Delivers_example :
    Delivers two_blocks false empty_log (delivery done_flow)
    × (done_flow.received ≡ take 1 (from_backward 3 ∷ []))
FlowReach-Delivers_example = FlowReach-Delivers two_blocks false done-FlowReach
