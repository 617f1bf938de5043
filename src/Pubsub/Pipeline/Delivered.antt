-- ===== src/Pubsub/Pipeline/Delivered.antt =====
-- No send meets a closed channel, and what the syncers send is what the subscriber receives.
use thorflux.Base.{
  ℕ, ◌+◌, ◌≡◌, refl, ap, ◌∙◌, ◌≢◌, ◌⊎◌, inl, inr, Bool, true, false, ◌&&◌, List, [], ◌∷◌, ◌++◌,
  arith, ltb, leb, if◌then◌else◌, count,
}
use thorflux.Pubsub.Backward.{BackwardSyncer}
use thorflux.Pubsub.Backward.Workers as Workers
use thorflux.Pubsub.Backward.Workers.{Sync, Step, Reach, start, Reach-complete}
use thorflux.Pubsub.Pipeline.{
  Item, from_backward, from_forward, Forward, polling, asking, sending, sending_fork, returned,
  Flow, run, HasReturned, FlowStep, backward_works, backward_sends, backward_crashes,
  backward_returns, forward_finds, forward_forks, forward_answered, forward_sends, forward_crashes,
  forward_returns, closes, receives, unsubscribes, cancels, FlowReach, here, next,
}

-- The numbers that the backward syncer has put into a list of events.
abbrev pub backward_numbers : List Item → List ℕ
backward_numbers [] = []
backward_numbers (from_backward n ∷ items) = n ∷ backward_numbers items
backward_numbers (from_forward n ∷ items) = backward_numbers items

pub count-backward_numbers_append :
    (n : ℕ) (xs ys : List Item)
    → count n (backward_numbers (xs ++ ys))
      ≡ count n (backward_numbers xs) + count n (backward_numbers ys)
count-backward_numbers_append n [] ys = omega arith
count-backward_numbers_append n (from_backward m ∷ xs) ys =
    omega (arith, count-backward_numbers_append n xs ys)
count-backward_numbers_append n (from_forward m ∷ xs) ys = count-backward_numbers_append n xs ys

pub record Inv (b : BackwardSyncer) (s : Flow) : Type 0 where
  pub reached : Reach (start b) s.backward
  pub calm : s.crashed ≡ false
  pub closed_last : s.closed ≡ true → (s.backward_returned ≡ true) × (s.forward ≡ returned)
  pub returned_over : s.backward_returned ≡ true → HasReturned s.backward
  pub same_context : s.backward.cancelled ≡ s.cancelled
  pub delivered :
      (n : ℕ)
      → count n s.backward.sent
        ≡ count n (backward_numbers s.received) + count n (backward_numbers s.channel)
  pub stopped : s.subscribed ≡ false → ((s.closed ≡ true) × (s.channel ≡ [])) ⊎ (s.cancelled ≡ true)

pub run-Inv : (b : BackwardSyncer) (has_forward : Bool) → Inv b (run b has_forward)
run-Inv b has_forward = record {
  reached = Workers.here;
  calm = refl;
  closed_last = λ e. cc;
  returned_over = λ e. cc;
  same_context = refl;
  delivered = λ n. omega arith;
  stopped = λ e. cc;
}

-- A syncer that still runs has not let the channel be closed.
open_by_backward :
    {b : BackwardSyncer} {s : Flow} → Inv b s → s.backward_returned ≡ false → s.closed ≢ true
open_by_backward v running e = let over = (v.closed_last e).0 in cc

pub open_by_forward :
    {b : BackwardSyncer} {s : Flow} → Inv b s → s.forward ≢ returned → s.closed ≢ true
open_by_forward v running e = running ((v.closed_last e).1)

pub is_sending : {f : Forward} {n : ℕ} → (f ≡ sending n) ⊎ (f ≡ sending_fork n) → f ≢ returned
is_sending (inl e) r = cc
is_sending (inr e) r = cc

is_active : {f : Forward} → (f ≡ polling) ⊎ ((n : ℕ) × (f ≡ sending n)) → f ≢ returned
is_active (inl e) r = cc
is_active (inr (n, e)) r = cc

module _ (b : BackwardSyncer) where
  forward-Inv :
      {s : Flow} (f : Forward) → Inv b s → s.forward ≢ returned → Inv b (record s { forward = f })
  forward-Inv f v running = record {
    reached = v.reached;
    calm = v.calm;
    closed_last = λ e. absurd (open_by_forward v running e);
    returned_over = v.returned_over;
    same_context = v.same_context;
    delivered = v.delivered;
    stopped = v.stopped;
  }

  FlowStep-Inv : {s t : Flow} → FlowStep s t → Inv b s → Inv b t
  FlowStep-Inv {s} (backward_works t running i) v = record {
    reached = Workers.next v.reached i.step;
    calm = v.calm;
    closed_last = v.closed_last;
    returned_over = λ e. cc;
    same_context = i.same_context ∙ v.same_context;
    delivered = λ n. ap (count n) i.same_sent ∙ v.delivered n;
    stopped = v.stopped;
  }
  FlowStep-Inv {s} (backward_sends n before after running e still room) v = record {
    reached = Workers.next v.reached (Workers.send n before after e);
    calm = v.calm;
    closed_last = v.closed_last;
    returned_over = λ r. cc;
    same_context = v.same_context;
    delivered = λ m.
        omega
          (arith, v.delivered m, count-backward_numbers_append m s.channel (from_backward n ∷ []));
    stopped = λ gone. elim (v.stopped gone) [ inl h ↦ cc (h.0) | inr c ↦ inr c ];
  }
  FlowStep-Inv (backward_crashes n before after running e over) v =
      absurd (open_by_backward v running over)
  FlowStep-Inv (backward_returns running done) v = record {
    reached = v.reached;
    calm = v.calm;
    closed_last = λ e. absurd (open_by_backward v running e);
    returned_over = λ e. done;
    same_context = v.same_context;
    delivered = v.delivered;
    stopped = v.stopped;
  }
  FlowStep-Inv (forward_finds n e) v = forward-Inv (sending n) v (λ r. cc)
  FlowStep-Inv (forward_forks e) v = forward-Inv asking v (λ r. cc)
  FlowStep-Inv (forward_answered n e) v = forward-Inv (sending_fork n) v (λ r. cc)
  FlowStep-Inv {s} (forward_sends n e still room) v = record {
    reached = v.reached;
    calm = v.calm;
    closed_last = λ over. absurd (open_by_forward v (is_sending e) over);
    returned_over = v.returned_over;
    same_context = v.same_context;
    delivered = λ m.
        omega
          (arith, v.delivered m, count-backward_numbers_append m s.channel (from_forward n ∷ []));
    stopped = λ gone. elim (v.stopped gone) [ inl h ↦ cc (h.0) | inr c ↦ inr c ];
  }
  FlowStep-Inv (forward_crashes n e over) v = absurd (open_by_forward v (is_sending e) over)
  FlowStep-Inv (forward_returns c e) v = forward-Inv returned v (is_active e)
  FlowStep-Inv (closes r e still) v = record {
    reached = v.reached;
    calm = v.calm;
    closed_last = λ over. (r, e);
    returned_over = v.returned_over;
    same_context = v.same_context;
    delivered = v.delivered;
    stopped = λ gone. elim (v.stopped gone) [ inl h ↦ cc (h.0) | inr c ↦ inr c ];
  }
  FlowStep-Inv {s} (receives i rest on e) v = record {
    reached = v.reached;
    calm = v.calm;
    closed_last = v.closed_last;
    returned_over = v.returned_over;
    same_context = v.same_context;
    delivered = λ n. omega (
      arith,
      v.delivered n,
      ap (λ (l : List Item). count n (backward_numbers l)) e,
      count-backward_numbers_append n s.received (i ∷ []),
      count-backward_numbers_append n (i ∷ []) rest,
    );
    stopped = λ gone. cc;
  }
  FlowStep-Inv (unsubscribes on why) v = record {
    reached = v.reached;
    calm = v.calm;
    closed_last = v.closed_last;
    returned_over = v.returned_over;
    same_context = v.same_context;
    delivered = v.delivered;
    stopped = λ gone. why;
  }
  FlowStep-Inv (cancels) v = record {
    reached = Workers.next v.reached Workers.cancel;
    calm = v.calm;
    closed_last = v.closed_last;
    returned_over = λ r. let (c, idle, q) = v.returned_over r in (c, idle, inr refl);
    same_context = refl;
    delivered = v.delivered;
    stopped = λ gone. inr refl;
  }

  pub FlowReach-Inv : {s t : Flow} → FlowReach s t → Inv b s → Inv b t
  FlowReach-Inv here v = v
  FlowReach-Inv (next r st) v = FlowStep-Inv st (FlowReach-Inv r v)

-- In every interleaving of the syncers, the subscriber and the context: no event is sent on the closed
-- channel. If the subscriber has stopped and the context has not ended, each block number above
-- `min_block` and up to `head` has been received from the backward syncer once or its block failed
-- to be processed once, and no other number has been received from it.
pub FlowReach-received_once :
    (b : BackwardSyncer) (has_forward : Bool) {s : Flow}
    → FlowReach (run b has_forward) s
    → (s.crashed ≡ false)
      × (s.subscribed ≡ false
          → s.cancelled ≡ false
          → (n : ℕ)
          → count n (backward_numbers s.received) + count n s.backward.failed
            ≡ (if ltb b.min_block n && leb n b.head then 1 else 0))
FlowReach-received_once b has_forward {s} r =
    let v = FlowReach-Inv b r (run-Inv b has_forward) in
    (
      v.calm,
      (λ gone quiet n. elim (v.stopped gone) [
        | inr c ↦ cc
        | inl (over, drained) ↦
            let calm = v.same_context ∙ quiet in
            let (shut, idle, worked) = v.returned_over ((v.closed_last over).0) in
            let complete =
              Reach-complete b n v.reached (shut, unless_cancelled calm worked, idle) calm in
            omega (
              arith,
              complete,
              v.delivered n,
              ap (λ (l : List Item). count n (backward_numbers l)) drained,
            )
      ]),
    )
  where
    unless_cancelled : {q : List ℕ} {c : Bool} → c ≡ false → (q ≡ []) ⊎ (c ≡ true) → q ≡ []
    unless_cancelled calm (inl e) = e
    unless_cancelled calm (inr e) = cc
