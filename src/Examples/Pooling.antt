-- ===== src/Examples/Pooling.antt =====
-- The theorems on the worker pool, at a pool of two workers.
use thorflux.Base.{◌≤◌, ◌≡◌, refl, ◌≢◌, true, false, [], ◌∷◌, arith}
use thorflux.Pubsub.WorkerPool.{
  Pool, new_worker_pool, idle, crashed, begin_batch, submit, receive, write, end_batch, Reach, here,
  next,
}
use thorflux.Pubsub.WorkerPool.Accounts.{placed, Reach-placed}
use thorflux.Pubsub.WorkerPool.Shutdown.{Reach-apart-safe}

-- Task 7 has been written and the batch is over.
abbrev written_7 : Pool
written_7 = record {
  queue_size = 3;
  workers = 2;
  live = 2;
  queue = [];
  running = [];
  written = 7 ∷ [];
  recovered = [];
  accepted = 7 ∷ [];
  submitter = idle;
  locked = false;
  cancelled = false;
  closed = false;
  is_shutdown = false;
}

written_7-Reach : Reach true (new_worker_pool 2 3) written_7
unfolding new_worker_pool
written_7-Reach =
    next
      (next
        (next
          (next (next here (begin_batch (7 ∷ []) refl refl refl))
            (submit 7 [] refl refl (omega arith)))
          (receive 7 [] refl (omega arith)))
        (write 7 [] [] refl))
      (end_batch refl)

Reach-placed_example : (placed 7 written_7 ≡ 1) × (0 ≤ 3) × (0 ≤ 2)
Reach-placed_example = Reach-placed true 2 3 7 (omega arith) (omega arith) written_7-Reach

Reach-apart-safe_example : written_7.submitter ≢ crashed
Reach-apart-safe_example = Reach-apart-safe 2 3 written_7-Reach
