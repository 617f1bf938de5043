-- ===== src/Pubsub/Subscriber/Handled.antt =====
-- What reaches the handlers and the fork handler of pubsub/subscriber.go.

use mathlib.Core.List.{Perm, foldr}
use mathlib.Core.List.Perm
use native.Mathlib.Nat.{ℕ_set}
use thorflux.Base.{
  ℕ, zero, suc, ◌≤◌, ◌<◌, ◌≡◌, refl, sym, ap, ◌∙◌, subst, ◌↔◌, ◌⊎◌, inl, inr, Bool, true, false,
  Option, none, some, List, [], ◌∷◌, ◌++◌, arith, ◌==◌, if◌then◌else◌, Bool-cases, All,
}
use thorflux.Types.{Event}
use thorflux.Pubsub.Events.{BlockEvent, ForkEvent}
use thorflux.Pubsub.Subscriber.{
  Handler, authority, pos, transactions, liveness, blocks, utilisation, slots, price, Task, Action,
  resolve_fork, submit_batch, update_synced, to_event, tasks_for, Received, handlers,
  handle_by_fork, handle_event, subscribe,
}

-- The handlers by number.
abbrev code : Handler → ℕ
code authority = 0
code pos = 1
code transactions = 2
code liveness = 3
code blocks = 4
code utilisation = 5
code slots = 6
code price = 7

-- The events of the tasks for one handler, in the order of their submission.
abbrev events_in : Handler → List Task → List Event
events_in h [] = []
events_in h (t ∷ ts) =
    if code t.event_type == code h then t.event ∷ events_in h ts else events_in h ts

abbrev pub events_for : Handler → List Action → List Event
events_for h [] = []
events_for h (resolve_fork f ∷ as_) = events_for h as_
events_for h (submit_batch ts ∷ as_) = events_in h ts ++ events_for h as_

abbrev pub resolved : List Action → List ForkEvent
resolved [] = []
resolved (resolve_fork f ∷ as_) = f ∷ resolved as_
resolved (submit_batch ts ∷ as_) = resolved as_

abbrev or_none : Option ForkEvent → List ForkEvent → List ForkEvent
or_none none fs = fs
or_none (some f) fs = f ∷ fs

-- The forks that have been received, and the events that are none, in order.
abbrev pub forks_in : List Received → List ForkEvent
forks_in [] = []
forks_in ((order, since, b) ∷ rest) = or_none b.fork (forks_in rest)

abbrev unless_fork : Option ForkEvent → BlockEvent → List BlockEvent → List BlockEvent
unless_fork none b bs = b ∷ bs
unless_fork (some f) b bs = bs

abbrev pub plain_in : List Received → List BlockEvent
plain_in [] = []
plain_in ((order, since, b) ∷ rest) = unless_fork b.fork b (plain_in rest)

-- An event for the handlers carries what the block event does, at the time of the block.
pub record Carries (b : BlockEvent) (ev : Event) : Type 0 where
  pub block : ev.block ≡ b.block
  pub seed : ev.seed ≡ b.seed
  pub hayabusa_status : ev.hayabusa_status ≡ b.hayabusa_status
  pub prev : ev.prev ≡ b.prev
  pub timestamp : ev.timestamp ≡ b.block.timestamp
  pub staker : ev.staker ≡ b.staker
  pub parent_staker : ev.parent_staker ≡ b.parent_staker
  pub auth_nodes : ev.auth_nodes ≡ b.auth_nodes
  pub parent_auth_nodes : ev.parent_auth_nodes ≡ b.parent_auth_nodes
  pub future_seed : ev.future_seed ≡ b.future_seed

abbrev pub CarryAll : List BlockEvent → List Event → Type 0
CarryAll [] [] = Unit {0}
CarryAll [] (ev ∷ evs) = ⊥
CarryAll (b ∷ bs) [] = ⊥
CarryAll (b ∷ bs) (ev ∷ evs) = Carries b ev × CarryAll bs evs

to_event-Carries : (b : BlockEvent) → Carries b (to_event b)
unfolding to_event
to_event-Carries b = record {
  block = refl;
  seed = refl;
  hayabusa_status = refl;
  prev = refl;
  timestamp = refl;
  staker = refl;
  parent_staker = refl;
  auth_nodes = refl;
  parent_auth_nodes = refl;
  future_seed = refl;
}

-- How often a handler stands in a range.
add_time : Handler → Handler → ℕ → ℕ
add_time h k n = if code k == code h then suc n else n

times : Handler → List Handler → ℕ
times h order = foldr (add_time h) 0 order

repeated : ℕ → Event → List Event
repeated zero ev = []
repeated (suc n) ev = ev ∷ repeated n ev

events_in-tasks_for :
    (h : Handler) (order : List Handler) (ev : Event)
    → events_in h (tasks_for order ev) ≡ repeated (times h order) ev
unfolding tasks_for times add_time repeated
events_in-tasks_for h [] ev = refl
events_in-tasks_for h (k ∷ ks) ev = elim (Bool-cases (code k == code h)) [
  | inl e ↦ rw e (ap (◌∷◌ ev) (events_in-tasks_for h ks ev))
  | inr e ↦ rw e (events_in-tasks_for h ks ev)
]

add_time_comm :
    (h k l : Handler) (n : ℕ) → add_time h k (add_time h l n) ≡ add_time h l (add_time h k n)
unfolding add_time
add_time_comm h k l n = ground arith

-- Each key stands once in the handler map.
times-handlers : (h : Handler) → times h handlers ≡ 1
unfolding times add_time
times-handlers authority = refl
times-handlers pos = refl
times-handlers transactions = refl
times-handlers liveness = refl
times-handlers blocks = refl
times-handlers utilisation = refl
times-handlers slots = refl
times-handlers price = refl

-- Whatever the order of the range, a handler gets the event once.
events_in-tasks_for_once :
    (h : Handler) (order : List Handler) (ev : Event)
    → Perm order handlers
    → events_in h (tasks_for order ev) ≡ ev ∷ []
unfolding times repeated
events_in-tasks_for_once h order ev p =
    events_in-tasks_for h order ev
    ∙ ap (λ n. repeated n ev)
        (Perm.foldr-eq ℕ_set (add_time h) (add_time_comm h) p 0 ∙ times-handlers h)

forwards_one :
    (order : List Handler) (synced : Bool) (since : ℕ) (b : BlockEvent) (f : Option ForkEvent)
    (fs : List ForkEvent) (bs : List BlockEvent) (actions : List Action)
    → Perm order handlers
    → resolved actions ≡ fs
    → ((h : Handler) → CarryAll bs (events_for h actions))
    → (resolved ((handle_by_fork order synced since b f).1 ∷ actions) ≡ or_none f fs)
      × ((h : Handler)
          → CarryAll
              (unless_fork f b bs)
              (events_for h ((handle_by_fork order synced since b f).1 ∷ actions)))
unfolding handle_by_fork
forwards_one order synced since b (some f) fs bs actions p r c = (ap (◌∷◌ f) r, c)
forwards_one order synced since b none fs bs actions p r c = (
  r,
  λ h.
      subst (λ evs. CarryAll (b ∷ bs) (evs ++ events_for h actions))
        (sym (events_in-tasks_for_once h order (to_event b) p)) (to_event-Carries b, c h),
)

-- When each range over the handler map visits its eight keys, in any order, then the forks that are
-- resolved are those of the received events, in order, and each of the eight handlers gets, in order
-- and once each, the received events without a fork: each as an event with the same block, seed,
-- status, previous block, staker data, authority nodes and future seed, at the block's timestamp.
pub subscribe-CarryAll :
    (synced : Bool) (received : List Received)
    → All (λ (r : Received). Perm r.0 handlers) received
    → (resolved (subscribe synced received).1 ≡ forks_in received)
      × ((h : Handler) → CarryAll (plain_in received) (events_for h (subscribe synced received).1))
unfolding subscribe handle_event
subscribe-CarryAll synced [] a = (refl, λ h. tt)
subscribe-CarryAll synced ((order, since, b) ∷ rest) (p, a) =
    let rest_ = subscribe-CarryAll (handle_event order synced since b).0 rest a in
    forwards_one order synced since b b.fork (forks_in rest) (plain_in rest)
      (subscribe (handle_event order synced since b).0 rest).1 p rest_.0 rest_.1

-- The flag `synced` is raised only by a block younger than 15 seconds, falls only by one older than 60,
-- and keeps its value between the two.
update_synced_iff :
    (synced : Bool) (since : ℕ)
    → (update_synced synced since ≡ true) ↔ ((since < 15) ⊎ ((synced ≡ true) × (since ≤ 60)))
unfolding update_synced
update_synced_iff true since = ground arith
update_synced_iff false since = ground arith
