-- ===== src/Examples/Syncing.antt =====
-- The theorems on the backward sync and on its plan, at small ranges.
use thorflux.Base.{
  ◌+◌, ◌≤◌, ◌<◌, ◌≡◌, refl, subst, inl, true, false, none, some, [], ◌∷◌, arith, length, count,
  u32_mod,
}
use thorflux.Chain.{Result, ok, finalized, ok-injective, Block, Revision, Client}
use thorflux.Pubsub.Backward.{BackwardSyncer, new_backward_syncer, generate_work, start_work}
use thorflux.Pubsub.Backward.Workers.{
  Sync, start, Reach, here, next, hand_out, receive, send, fail, close_work, held, Reach-accounts,
  Reach-complete,
}
use thorflux.Pubsub.Publisher.{
  Publisher, new_publisher, starting_blocks, adjust_back_sync, latest_or_zero,
}
use thorflux.Pubsub.Publisher.Plan.{planned}
use thorflux.Pubsub.Publisher.Start.{new_publisher-meet, AnswersByNumber}
use thorflux.Examples.Data.{client, client-AnswersByNumber, best_3, best_2}

-- Blocks 3 and 2.
abbrev pub two_blocks : BackwardSyncer
two_blocks = record { min_block = 1; head = 3 }

test-start_work : start_work two_blocks ≡ 3 ∷ 2 ∷ []
unfolding start_work generate_work
test-start_work = refl

-- Block 3 is sent and block 2 fails.
abbrev pub halfway : Sync
halfway = record {
  todo = 2 ∷ [];
  queued = [];
  busy = 3 ∷ [];
  sent = [];
  failed = [];
  dropped = [];
  cancelled = false;
  closed = false;
}

halfway-Reach : Reach (start two_blocks) halfway
unfolding start_work generate_work
halfway-Reach =
    next (next here (hand_out 3 (2 ∷ []) refl refl (omega arith))) (receive 3 [] refl (omega arith))

abbrev finished : Sync
finished = record {
  todo = [];
  queued = [];
  busy = [];
  sent = 3 ∷ [];
  failed = 2 ∷ [];
  dropped = [];
  cancelled = false;
  closed = true;
}

finished-Reach : Reach (start two_blocks) finished
finished-Reach =
    next
      (next
        (next
          (next (next halfway-Reach (hand_out 2 [] refl refl (omega arith)))
            (receive 2 [] refl (omega arith)))
          (send 3 (2 ∷ []) [] refl))
        (fail 2 [] [] refl))
      (close_work refl (inl refl))

Reach-accounts_example :
    (length halfway.queued ≤ 200) × (length halfway.busy ≤ 100) × (held 3 halfway ≡ 1)
Reach-accounts_example = Reach-accounts two_blocks 3 halfway-Reach

Reach-complete_example : count 2 finished.sent + count 2 finished.failed ≡ 1
Reach-complete_example = Reach-complete two_blocks 2 finished-Reach (refl, refl, refl) refl

-- Three blocks back from block 10, with nothing stored: 10, 9 and 8.
test-planned : planned 3 10 0 ≡ 10 ∷ 9 ∷ 8 ∷ []
unfolding start_work generate_work new_backward_syncer adjust_back_sync
test-planned = refl

-- More than exist: block 1 is left out; exactly as many as exist: it is not.
test-planned_over : planned 100 3 0 ≡ 3 ∷ 2 ∷ []
unfolding start_work generate_work new_backward_syncer adjust_back_sync
test-planned_over = refl

test-planned_exact : planned 3 3 0 ≡ 3 ∷ 2 ∷ 1 ∷ []
unfolding start_work generate_work new_backward_syncer adjust_back_sync
test-planned_exact = refl

-- The finalized block is block 1, so the predecessor asked for is block 0, which the node lacks; with
-- block 3 finalized the two syncers meet.
test-new_publisher :
    new_publisher client 0 0 2 3 (ok 0)
    ≡ ok (record {
      backward = record { min_block = 1; head = 3 };
      forward = none;
      hayabusa_fork_block = 0;
      hayabusa_active_block = 0;
    })
unfolding new_publisher starting_blocks new_backward_syncer adjust_back_sync latest_or_zero
test-new_publisher = refl

-- A node whose finalized block is block 3 of the best chain.
abbrev late_answer : Revision → Result Block
late_answer finalized = ok best_3
late_answer r = client.expanded_block r

abbrev pub late_client : Client
late_client = record { expanded_block = late_answer }

late-AnswersByNumber : AnswersByNumber late_client
late-AnswersByNumber n b h = client-AnswersByNumber n b h

abbrev pub late_publisher : Publisher
late_publisher = record {
  backward = record { min_block = 1; head = 3 };
  forward = some best_2;
  hayabusa_fork_block = 5;
  hayabusa_active_block = 7;
}

test-late_publisher : new_publisher late_client 5 2 2 0 (ok 0) ≡ ok late_publisher
unfolding new_publisher starting_blocks new_backward_syncer adjust_back_sync latest_or_zero
test-late_publisher = refl

new_publisher-meet_example :
    (previous : Block) × (late_publisher.forward ≡ some previous)
    × (late_publisher.backward.head ≡ previous.number + 1)
new_publisher-meet_example =
    new_publisher-meet late_client 5 2 2 (ok 0) late-AnswersByNumber
      (λ b h. subst (λ (x : Block). x.number < u32_mod) (ok-injective h) (omega arith))
      test-late_publisher
