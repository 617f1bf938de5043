-- ===== src/Pubsub/Pipeline.antt =====
-- `Run` of pubsub/publisher.go and the loop of `Subscribe` in pubsub/subscriber.go around the block
-- channel: the two syncers, the goroutine that closes the channel, the subscriber and the context as
-- interleaved steps. An event is named by its block number. Where the forward syncer finds the
-- database ahead of the node, it ends the whole program, which is no step here.
pub mod Delivered
pub mod Shutdown
pub mod Promise
use thorflux.Base.{ℕ, ◌<◌, ◌≡◌, ◌⊎◌, Bool, true, false, List, [], ◌∷◌, ◌++◌, if◌then◌else◌, length}
use thorflux.Pubsub.Backward.{BackwardSyncer}
use thorflux.Pubsub.Backward.Workers.{Sync, Step, Reach, start, IsOver}

-- `config.DefaultChannelBuffer`.
abbrev pub channel_buffer : ℕ
channel_buffer = 2000

pub data Item : Type 0 where
  from_backward : ℕ → Item
  from_forward : ℕ → Item

-- Where the forward syncer stands: in its loop, asking for the finalized block after a fork, sending
-- an event or a fork event, or not running.
pub data Forward : Type 0 where
  polling asking : Forward
  sending : ℕ → Forward
  sending_fork : ℕ → Forward
  returned : Forward

-- `received` is what the subscriber has taken from `channel`; `crashed` stands for a send on the closed
-- channel, which panics.
pub record Flow : Type 0 where
  pub backward : Sync
  pub backward_returned : Bool
  pub forward : Forward
  pub channel : List Item
  pub received : List Item
  pub closed : Bool
  pub subscribed : Bool
  pub cancelled : Bool
  pub crashed : Bool

-- `Run`; there is no forward syncer with an end block.
abbrev pub run : BackwardSyncer → (has_forward : Bool) → Flow
run b has_forward = record {
  backward = start b;
  backward_returned = false;
  forward = if has_forward then polling else returned;
  channel = [];
  received = [];
  closed = false;
  subscribed = true;
  cancelled = false;
  crashed = false;
}

-- What the backward syncer does without the block channel: `sent` and its context stay.
pub record IsInternal (s t : Sync) : Type 0 where
  pub step : Step s t
  pub same_sent : t.sent ≡ s.sent
  pub same_context : t.cancelled ≡ s.cancelled

-- After `wg.Wait()` of `Start`: the work channel is closed, no worker holds a block, and the workers
-- have drained the work channel or the context has ended.
abbrev pub HasReturned : Sync → Type 0
HasReturned s = (s.closed ≡ true) × (s.busy ≡ []) × ((s.queued ≡ []) ⊎ (s.cancelled ≡ true))

pub data FlowStep (s : Flow) : Flow → Type 0 where
  backward_works :
      (t : Sync)
      → s.backward_returned ≡ false
      → IsInternal s.backward t
      → FlowStep s (record s { backward = t })
  -- `case s.blockChan <- blockEvent` of a worker
  backward_sends :
      (n : ℕ) (before after : List ℕ)
      → s.backward_returned ≡ false
      → s.backward.busy ≡ before ++ n ∷ after
      → s.closed ≡ false
      → length s.channel < channel_buffer
      → FlowStep s (record s {
        backward = record s.backward { busy = before ++ after; sent = n ∷ s.backward.sent };
        channel = s.channel ++ from_backward n ∷ [];
      })
  backward_crashes :
      (n : ℕ) (before after : List ℕ)
      → s.backward_returned ≡ false
      → s.backward.busy ≡ before ++ n ∷ after
      → s.closed ≡ true
      → FlowStep s (record s { crashed = true })
  backward_returns :
      s.backward_returned ≡ false
      → HasReturned s.backward
      → FlowStep s (record s { backward_returned = true })
  -- the next block extends the chain and is processed, or there is a fork
  forward_finds : (n : ℕ) → s.forward ≡ polling → FlowStep s (record s { forward = sending n })
  forward_forks : s.forward ≡ polling → FlowStep s (record s { forward = asking })
  forward_answered :
      (n : ℕ) → s.forward ≡ asking → FlowStep s (record s { forward = sending_fork n })
  -- `f.blockChan <- …`, in a select or not
  forward_sends :
      (n : ℕ)
      → (s.forward ≡ sending n) ⊎ (s.forward ≡ sending_fork n)
      → s.closed ≡ false
      → length s.channel < channel_buffer
      → FlowStep s (record s { forward = polling; channel = s.channel ++ from_forward n ∷ [] })
  forward_crashes :
      (n : ℕ)
      → (s.forward ≡ sending n) ⊎ (s.forward ≡ sending_fork n)
      → s.closed ≡ true
      → FlowStep s (record s { crashed = true })
  -- `case <-ctx.Done()`, which the send of a fork event does not wait for
  forward_returns :
      s.cancelled ≡ true
      → (s.forward ≡ polling) ⊎ ((n : ℕ) × (s.forward ≡ sending n))
      → FlowStep s (record s { forward = returned })
  -- `wg.Wait()`, then `close(p.blockChan)`
  closes :
      s.backward_returned ≡ true
      → s.forward ≡ returned
      → s.closed ≡ false
      → FlowStep s (record s { closed = true })
  receives :
      (i : Item) (rest : List Item)
      → s.subscribed ≡ true
      → s.channel ≡ i ∷ rest
      → FlowStep s (record s { channel = rest; received = s.received ++ i ∷ [] })
  -- `if !ok { return }`, and `case <-ctx.Done()`
  unsubscribes :
      s.subscribed ≡ true
      → ((s.closed ≡ true) × (s.channel ≡ [])) ⊎ (s.cancelled ≡ true)
      → FlowStep s (record s { subscribed = false })
  cancels :
      FlowStep s (record s { cancelled = true; backward = record s.backward { cancelled = true } })

pub data FlowReach (s : Flow) : Flow → Type 0 where
  here : FlowReach s s
  next : {t u : Flow} → FlowReach s t → FlowStep t u → FlowReach s u
