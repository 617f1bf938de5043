-- ===== src/Pubsub/Pipeline/Promise.antt =====
-- What `Run` of pubsub/publisher.go promises to the reader of the block channel: a log of events that
-- only grows, of which the reader takes the next one, and in which each number of the backward sync
-- stands at most once.
use thorflux.Base.{
  ℕ, ◌+◌, ◌≤◌, ◌<◌, ◌≡◌, refl, sym, ap, ◌∙◌, subst, ◌⊎◌, Bool, true, false, List, [], ◌∷◌, ◌++◌,
  arith, length, take, count, length-append, count-append,
}
use mathlib.Core.List.{append_assoc}
use thorflux.Pubsub.Backward.{BackwardSyncer}
use thorflux.Pubsub.Backward.Workers.{Reach-accounts}
use thorflux.Pubsub.Pipeline.{
  Item, from_backward, from_forward, returned, Flow, run, channel_buffer, FlowStep, backward_works,
  backward_sends, backward_crashes, backward_returns, forward_finds, forward_forks,
  forward_answered, forward_sends, forward_crashes, forward_returns, closes, receives, unsubscribes,
  cancels, FlowReach, here, next, sending, sending_fork,
}
use thorflux.Pubsub.Pipeline.Delivered.{
  backward_numbers, count-backward_numbers_append, Inv, is_sending, FlowReach-Inv, run-Inv,
}

-- The events in the order in which they are sent, and how many of them have been taken.
pub record Delivery : Type 0 where
  pub log : List Item
  pub taken : ℕ

pub data DeliveryStep (b : BackwardSyncer) (has_forward : Bool) (d : Delivery)
    : Delivery → Type 0 where
  logs_backward :
      (n : ℕ)
      → b.min_block < n
      → n ≤ b.head
      → count n (backward_numbers d.log) ≡ 0
      → length d.log < d.taken + channel_buffer
      → DeliveryStep b has_forward d (record d { log = d.log ++ from_backward n ∷ [] })
  logs_forward :
      (n : ℕ)
      → has_forward ≡ true
      → length d.log < d.taken + channel_buffer
      → DeliveryStep b has_forward d (record d { log = d.log ++ from_forward n ∷ [] })
  takes : d.taken < length d.log → DeliveryStep b has_forward d (record d { taken = d.taken + 1 })

pub data Delivers (b : BackwardSyncer) (has_forward : Bool) (d : Delivery) : Delivery → Type 0 where
  none_yet : Delivers b has_forward d d
  one_more :
      {e f : Delivery}
      → Delivers b has_forward d e
      → DeliveryStep b has_forward e f
      → Delivers b has_forward d f

abbrev pub empty_log : Delivery
empty_log = record { log = []; taken = 0 }

-- The log that a state of the program stands for.
abbrev pub delivery : Flow → Delivery
delivery s = record { log = s.received ++ s.channel; taken = length s.received }

busy-fresh :
    (b : BackwardSyncer) (s : Flow) (n : ℕ) (before after : List ℕ)
    → Inv b s
    → s.backward.busy ≡ before ++ n ∷ after
    → (b.min_block < n) × (n ≤ b.head) × (count n (backward_numbers (s.received ++ s.channel)) ≡ 0)
busy-fresh b s n before after v e =
    let accounts = (Reach-accounts b n v.reached).2 in
    let one = ap (count n) e ∙ count-append n before (n ∷ after) in
    let logged = count-backward_numbers_append n s.received s.channel in
    ground (arith, accounts, one, logged, v.delivered n)

FlowStep-forward : {s t : Flow} → FlowStep s t → s.forward ≡ returned → t.forward ≡ returned
FlowStep-forward (backward_works t r i) f = f
FlowStep-forward (backward_sends n before after r e o room) f = f
FlowStep-forward (backward_crashes n before after r e o) f = f
FlowStep-forward (backward_returns r e) f = f
FlowStep-forward (forward_finds n e) f = cc
FlowStep-forward (forward_forks e) f = cc
FlowStep-forward (forward_answered n e) f = cc
FlowStep-forward (forward_sends n e o room) f = absurd (is_sending e f)
FlowStep-forward (forward_crashes n e o) f = f
FlowStep-forward (forward_returns c e) f = refl
FlowStep-forward (closes r e o) f = f
FlowStep-forward (receives i rest on e) f = f
FlowStep-forward (unsubscribes on why) f = f
FlowStep-forward cancels f = f

FlowReach-forward :
    (b : BackwardSyncer) {s : Flow} → FlowReach (run b false) s → s.forward ≡ returned
FlowReach-forward b here = refl
FlowReach-forward b (next r st) = FlowStep-forward st (FlowReach-forward b r)

-- A forward syncer that sends is there.
has_sender :
    (b : BackwardSyncer) (has_forward : Bool) {s : Flow} {n : ℕ}
    → FlowReach (run b has_forward) s
    → (s.forward ≡ sending n) ⊎ (s.forward ≡ sending_fork n)
    → has_forward ≡ true
has_sender b true r e = refl
has_sender b false r e = absurd (is_sending e (FlowReach-forward b r))

module _ (b : BackwardSyncer) (has_forward : Bool) where
  logged :
      (s : Flow) (i : Item)
      → DeliveryStep b has_forward
          (delivery s)
          (record { log = (s.received ++ s.channel) ++ i ∷ []; taken = length s.received })
      → DeliveryStep b has_forward
          (delivery s)
          (record { log = s.received ++ (s.channel ++ i ∷ []); taken = length s.received })
  logged s i st =
      subst
        (λ l.
          DeliveryStep b has_forward (delivery s) (record { log = l; taken = length s.received }))
        (append_assoc s.received s.channel (i ∷ [])) st

  taken_next :
      (s : Flow) (i : Item) (rest : List Item)
      → s.channel ≡ i ∷ rest
      → DeliveryStep b has_forward
          (delivery s)
          (record { log = (s.received ++ i ∷ []) ++ rest; taken = length (s.received ++ i ∷ []) })
  taken_next s i rest e =
      let same : s.received ++ s.channel ≡ (s.received ++ i ∷ []) ++ rest =
        ap (λ l. s.received ++ l) e ∙ sym (append_assoc s.received (i ∷ []) rest) in
      let count_up : length s.received + 1 ≡ length (s.received ++ i ∷ []) =
        omega (arith, length-append s.received (i ∷ [])) in
      let more : length s.received < length (s.received ++ s.channel) =
        omega (arith, length-append s.received s.channel, ap (length {A = Item}) e) in
      let st : DeliveryStep b has_forward (delivery s)
          (record { log = s.received ++ s.channel; taken = length s.received + 1 }) =
        takes more in
      subst
        (λ l.
          DeliveryStep b has_forward (delivery s)
            (record { log = l; taken = length (s.received ++ i ∷ []) }))
        same
        (subst
          (λ k.
            DeliveryStep b has_forward (delivery s)
              (record { log = s.received ++ s.channel; taken = k }))
          count_up st)

  has_room :
      (s : Flow)
      → length s.channel < channel_buffer
      → length (s.received ++ s.channel) < length s.received + channel_buffer
  has_room s h = omega (arith, length-append s.received s.channel)

  FlowStep-Delivers :
      {s t : Flow}
      → FlowReach (run b has_forward) s
      → FlowStep s t
      → Delivers b has_forward empty_log (delivery s)
      → Delivers b has_forward empty_log (delivery t)
  FlowStep-Delivers r (backward_works t q i) d = d
  FlowStep-Delivers {s} r (backward_sends n before after q e o room) d =
      let (above, below, fresh) =
        busy-fresh b s n before after (FlowReach-Inv b r (run-Inv b has_forward)) e in
      one_more d (logged s (from_backward n) (logs_backward n above below fresh (has_room s room)))
  FlowStep-Delivers r (backward_crashes n before after q e o) d = d
  FlowStep-Delivers r (backward_returns q e) d = d
  FlowStep-Delivers r (forward_finds n e) d = d
  FlowStep-Delivers r (forward_forks e) d = d
  FlowStep-Delivers r (forward_answered n e) d = d
  FlowStep-Delivers {s} r (forward_sends n e o room) d =
      one_more d (
        logged s (from_forward n) (logs_forward n (has_sender b has_forward r e) (has_room s room)))
  FlowStep-Delivers r (forward_crashes n e o) d = d
  FlowStep-Delivers r (forward_returns c e) d = d
  FlowStep-Delivers r (closes q e o) d = d
  FlowStep-Delivers {s} r (receives i rest on e) d = one_more d (taken_next s i rest e)
  FlowStep-Delivers r (unsubscribes on why) d = d
  FlowStep-Delivers r cancels d = d

  FlowReach-log :
      {s : Flow} → FlowReach (run b has_forward) s → Delivers b has_forward empty_log (delivery s)
  FlowReach-log here = none_yet
  FlowReach-log (next r st) = FlowStep-Delivers r st (FlowReach-log r)

take-length_append : (xs ys : List Item) → take (length xs) (xs ++ ys) ≡ xs
take-length_append [] ys = refl
take-length_append (x ∷ xs) ys = ap (λ l. x ∷ l) (take-length_append xs ys)

-- The program refines the delivery of a log: whatever the order of its steps, the events received and
-- the events in the channel make up a log that a run of the delivery from the empty log arrives at,
-- which grows by events of the forward syncer if there is one and by each number of the backward sync
-- at most once, and is at most 2000 events ahead of the reader; and the events received are the
-- beginning of this log, as far as it has been taken.
pub FlowReach-Delivers :
    (b : BackwardSyncer) (has_forward : Bool) {s : Flow}
    → FlowReach (run b has_forward) s
    → Delivers b has_forward empty_log (delivery s)
      × (s.received ≡ take (delivery s).taken (delivery s).log)
FlowReach-Delivers b has_forward {s} r =
    (FlowReach-log b has_forward r, sym (take-length_append s.received s.channel))
