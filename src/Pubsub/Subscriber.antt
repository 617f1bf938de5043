-- ===== src/Pubsub/Subscriber.antt =====
-- pubsub/subscriber.go: what `Subscribe` does with each block event that it receives.
pub mod Handled
use thorflux.Base.{
  ℕ, Bool, true, false, not, ◌&&◌, Option, none, some, List, [], ◌∷◌, ltb, if◌then◌else◌,
}
use thorflux.Types.{Event}
use thorflux.Pubsub.Events.{BlockEvent, ForkEvent}

-- The keys of the handler map that `NewSubscriber` registers.
pub data Handler : Type 0 where
  authority pos transactions liveness blocks utilisation slots price : Handler

abbrev pub handlers : List Handler
handlers = authority ∷ pos ∷ transactions ∷ liveness ∷ blocks ∷ utilisation ∷ slots ∷ price ∷ []

pub record Task : Type 0 where
  pub event_type : Handler
  pub event : Event

-- What the loop does for one event: `Resolve`, or `SubmitBatch`.
pub data Action : Type 0 where
  resolve_fork : ForkEvent → Action
  submit_batch : List Task → Action

-- The two tests of `synced`, on the seconds since the block's timestamp.
unfoldable pub update_synced : Bool → ℕ → Bool
update_synced synced since =
    let s = if not synced && ltb since 15 then true else synced in
    if s && ltb 60 since then false else s

unfoldable pub to_event : BlockEvent → Event
to_event b = record {
  block = b.block;
  seed = b.seed;
  hayabusa_status = b.hayabusa_status;
  prev = b.prev;
  timestamp = b.block.timestamp;
  staker = b.staker;
  parent_staker = b.parent_staker;
  auth_nodes = b.auth_nodes;
  parent_auth_nodes = b.parent_auth_nodes;
  future_seed = b.future_seed;
}

-- The range over the handler map, in whatever order it has this time.
unfoldable pub tasks_for : List Handler → Event → List Task
tasks_for [] ev = []
tasks_for (h ∷ hs) ev = record { event_type = h; event = ev } ∷ tasks_for hs ev

unfoldable pub handle_by_fork :
    List Handler → Bool → ℕ → BlockEvent → Option ForkEvent → Bool × Action
unfolding update_synced to_event tasks_for
handle_by_fork order synced since b (some f) = (synced, resolve_fork f)
handle_by_fork order synced since b none =
    (update_synced synced since, submit_batch (tasks_for order (to_event b)))

unfoldable pub handle_event : List Handler → Bool → ℕ → BlockEvent → Bool × Action
unfolding handle_by_fork
handle_event order synced since b = handle_by_fork order synced since b b.fork

-- One received event: the order of the range, the seconds since its block, and the event.
abbrev pub Received : Type 0
Received = List Handler × ℕ × BlockEvent

-- The loop of `Subscribe` until the channel is closed.
unfoldable pub subscribe : Bool → List Received → Bool × List Action
unfolding handle_event
subscribe synced [] = (synced, [])
subscribe synced ((order, since, b) ∷ rest) =
    let (synced', action) = handle_event order synced since b in
    let (last, actions) = subscribe synced' rest in (last, action ∷ actions)
