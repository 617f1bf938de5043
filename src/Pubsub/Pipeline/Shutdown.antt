-- ===== src/Pubsub/Pipeline/Shutdown.antt =====
-- How the pipeline ends once the context has ended, and where it cannot.
use thorflux.Base.{
  ℕ, ◌≤◌, ◌<◌, ◌≡◌, refl, ap, ◌∙◌, ◌≢◌, ◌⊎◌, inl, inr, Bool, true, false, List, [], ◌∷◌, ◌++◌,
  arith, Bool-cases, length,
}
use thorflux.Pubsub.Backward.{BackwardSyncer}
use thorflux.Pubsub.Backward.Workers as Workers
use thorflux.Pubsub.Backward.Workers.{Sync}
use thorflux.Pubsub.Pipeline.{
  Item, from_forward, Forward, polling, asking, sending, sending_fork, returned, Flow, run,
  channel_buffer, FlowStep, backward_works, backward_sends, backward_crashes, backward_returns,
  forward_finds, forward_forks, forward_answered, forward_sends, forward_crashes, forward_returns,
  closes, receives, unsubscribes, cancels, FlowReach, here, next,
}
use thorflux.Pubsub.Pipeline.Delivered.{Inv, run-Inv, FlowReach-Inv, open_by_forward}

-- Both syncers and the subscriber have returned, and the channel is closed.
abbrev pub IsFinished : Flow → Type 0
IsFinished s =
    (s.backward_returned ≡ true)
    × (s.forward ≡ returned)
    × (s.closed ≡ true)
    × (s.subscribed ≡ false)

abbrev pub CanFinish : Flow → Type 0
CanFinish s = (t : Flow) × FlowReach s t × IsFinished t

first_step : {s t u : Flow} → FlowStep s t → FlowReach t u → FlowReach s u
first_step st here = next here st
first_step st (next r last) = next (first_step st r) last

after : {s t : Flow} → FlowStep s t → CanFinish t → CanFinish s
after st (u, r, done) = (u, first_step st r, done)

unsubscribe_lem :
    (s : Flow)
    → s.backward_returned ≡ true
    → s.forward ≡ returned
    → s.closed ≡ true
    → s.cancelled ≡ true
    → CanFinish s
unsubscribe_lem s b f c d = elim (Bool-cases s.subscribed) [
  | inl on ↦ (record s { subscribed = false }, next here (unsubscribes on (inr d)), (b, f, c, refl))
  | inr off ↦ (s, here, (b, f, c, off))
]

close_lem :
    (s : Flow)
    → s.backward_returned ≡ true
    → s.forward ≡ returned
    → s.cancelled ≡ true
    → CanFinish s
close_lem s b f d = elim (Bool-cases s.closed) [
  | inl c ↦ unsubscribe_lem s b f c d
  | inr c ↦ after (closes b f c) (unsubscribe_lem (record s { closed = true }) b f refl d)
]

-- The workers that hold a block drop it, then the producer closes the work channel.
backward_lem :
    (busy : List ℕ) (s : Flow)
    → s.backward.busy ≡ busy
    → s.backward_returned ≡ false
    → s.forward ≡ returned
    → s.cancelled ≡ true
    → s.backward.cancelled ≡ true
    → CanFinish s
backward_lem (n ∷ busy) s e r f d c =
    let dropped : Sync = record s.backward { busy = busy; dropped = n ∷ s.backward.dropped } in
    after
      (backward_works dropped r
        (record { step = Workers.drop_block n [] busy c e; same_sent = refl; same_context = refl }))
      (backward_lem busy (record s { backward = dropped }) refl r f d c)
backward_lem [] s e r f d c = elim (Bool-cases s.backward.closed) [
  | inl shut ↦
      after (backward_returns r (shut, e, inr c))
        (close_lem (record s { backward_returned = true }) refl f d)
  | inr still ↦
      let shut : Sync = record s.backward { closed = true } in
      after
        (backward_works shut r (record {
          step = Workers.close_work still (inr c);
          same_sent = refl;
          same_context = refl;
        }))
        (after (backward_returns r (refl, e, inr c))
          (close_lem (record s { backward = shut; backward_returned = true }) refl f d))
]

returned_lem :
    (s : Flow)
    → s.forward ≡ returned
    → s.cancelled ≡ true
    → s.backward.cancelled ≡ true
    → CanFinish s
returned_lem s f d c = elim (Bool-cases s.backward_returned) [
  | inl r ↦ close_lem s r f d
  | inr r ↦ backward_lem s.backward.busy s refl r f d c
]

-- The forward syncer sees that the context has ended.
active_lem :
    (s : Flow)
    → (s.forward ≡ polling) ⊎ ((n : ℕ) × (s.forward ≡ sending n))
    → s.cancelled ≡ true
    → s.backward.cancelled ≡ true
    → CanFinish s
active_lem s f d c =
    after (forward_returns d f) (returned_lem (record s { forward = returned }) refl d c)

room_lem :
    (s : Flow) (n : ℕ)
    → s.forward ≡ sending_fork n
    → s.closed ≡ false
    → length s.channel < channel_buffer
    → s.cancelled ≡ true
    → s.backward.cancelled ≡ true
    → CanFinish s
room_lem s n f still room d c = after (forward_sends n (inr f) still room) (
    active_lem (record s { forward = polling; channel = s.channel ++ from_forward n ∷ [] })
      (inl refl) d c)

-- There is room for one event more, or the subscriber makes room.
abbrev pub HasOutlet : Flow → Type 0
HasOutlet s =
    (length s.channel < channel_buffer)
    ⊎ ((s.subscribed ≡ true) × (length s.channel ≤ channel_buffer))

fork_lem :
    (channel : List Item) (s : Flow) (n : ℕ)
    → s.channel ≡ channel
    → s.forward ≡ sending_fork n
    → s.closed ≡ false
    → HasOutlet s
    → s.cancelled ≡ true
    → s.backward.cancelled ≡ true
    → CanFinish s
fork_lem channel s n e f still (inl room) d c = room_lem s n f still room d c
fork_lem [] s n e f still (inr (on, fits)) d c =
    room_lem s n f still (omega (arith, ap (length {A = Item}) e)) d c
fork_lem (i ∷ rest) s n e f still (inr (on, fits)) d c = after (receives i rest on e) (
    room_lem (record s { channel = rest; received = s.received ++ i ∷ [] }) n f still
      (omega (arith, ap (length {A = Item}) e)) d c)

-- Once the context has ended, from every state that the pipeline can reach it can come to its end, with
-- the channel closed and all goroutines returned, if the forward syncer is not about to send a fork
-- event, or if there is room in the channel or the subscriber still receives.
pub FlowReach-CanFinish :
    (b : BackwardSyncer) (has_forward : Bool) {s : Flow}
    → FlowReach (run b has_forward) s
    → s.cancelled ≡ true
    → ((s.forward ≢ asking) × ((n : ℕ) → s.forward ≢ sending_fork n)) ⊎ HasOutlet s
    → CanFinish s
FlowReach-CanFinish b has_forward {s} r d outlet = by_forward s.forward refl outlet
  where
    v : Inv b s
    v = FlowReach-Inv b r (run-Inv b has_forward)

    c : s.backward.cancelled ≡ true
    c = v.same_context ∙ d

    still : s.forward ≢ returned → s.closed ≡ false
    still f = elim (Bool-cases s.closed) [ inl e ↦ absurd (open_by_forward v f e) | inr e ↦ e ]

    by_forward :
        (f : Forward)
        → s.forward ≡ f
        → ((s.forward ≢ asking) × ((n : ℕ) → s.forward ≢ sending_fork n)) ⊎ HasOutlet s
        → CanFinish s
    by_forward returned e o = returned_lem s e d c
    by_forward polling e o = active_lem s (inl e) d c
    by_forward (sending n) e o = active_lem s (inr (n, e)) d c
    by_forward asking e (inl (not_asking, h)) = absurd (not_asking e)
    by_forward asking e (inr o) = after (forward_answered 0 e) (
        fork_lem s.channel (record s { forward = sending_fork 0 }) 0 refl refl (still (λ k. cc)) o d
          c)
    by_forward (sending_fork n) e (inl (not_asking, h)) = absurd (h n e)
    by_forward (sending_fork n) e (inr o) = fork_lem s.channel s n refl e (still (λ k. cc)) o d c

-- The subscriber is gone, the channel is full, and the forward syncer sends a fork event.
record IsStuck (n : ℕ) (s : Flow) : Type 0 where
  pub waiting : s.forward ≡ sending_fork n
  pub gone : s.subscribed ≡ false
  pub full : channel_buffer ≤ length s.channel

FlowStep-IsStuck : {n : ℕ} {s t : Flow} → FlowStep s t → IsStuck n s → IsStuck n t
FlowStep-IsStuck (backward_works t r i) k = record {
  waiting = k.waiting;
  gone = k.gone;
  full = k.full;
}
FlowStep-IsStuck (backward_sends m before rest r e o room) k =
    absurd (let f = k.full in omega arith)
FlowStep-IsStuck (backward_crashes m before rest r e o) k = record {
  waiting = k.waiting;
  gone = k.gone;
  full = k.full;
}
FlowStep-IsStuck (backward_returns r e) k = record {
  waiting = k.waiting;
  gone = k.gone;
  full = k.full;
}
FlowStep-IsStuck (forward_finds m e) k = let w = k.waiting in cc
FlowStep-IsStuck (forward_forks e) k = let w = k.waiting in cc
FlowStep-IsStuck (forward_answered m e) k = let w = k.waiting in cc
FlowStep-IsStuck (forward_sends m e o room) k = absurd (let f = k.full in omega arith)
FlowStep-IsStuck (forward_crashes m e o) k = record {
  waiting = k.waiting;
  gone = k.gone;
  full = k.full;
}
FlowStep-IsStuck (forward_returns d (inl e)) k = let w = k.waiting in cc
FlowStep-IsStuck (forward_returns d (inr (m, e))) k = let w = k.waiting in cc
FlowStep-IsStuck (closes r e o) k = let w = k.waiting in cc
FlowStep-IsStuck (receives i rest on e) k = let g = k.gone in cc
FlowStep-IsStuck (unsubscribes on why) k = let g = k.gone in cc
FlowStep-IsStuck cancels k = record { waiting = k.waiting; gone = k.gone; full = k.full }

-- If the subscriber has stopped and the channel is full while the forward syncer sends a fork event, then
-- the pipeline never finishes, whatever happens, the end of the context included.
pub FlowReach-never_finishes :
    {n : ℕ} {s t : Flow}
    → s.forward ≡ sending_fork n
    → s.subscribed ≡ false
    → channel_buffer ≤ length s.channel
    → FlowReach s t
    → (t.forward ≡ sending_fork n) × (IsFinished t → ⊥)
FlowReach-never_finishes {n} {s} {t} waiting gone full r =
    let k = stuck r in (k.waiting, (λ done. let f = done.1 in let w = k.waiting in cc))
  where
    stuck : {u : Flow} → FlowReach s u → IsStuck n u
    stuck here = record { waiting = waiting; gone = gone; full = full }
    stuck (next q st) = FlowStep-IsStuck st (stuck q)
