-- ===== src/Pubsub/WorkerPool/Shutdown.antt =====
-- When `SubmitBatch` of pubsub/worker_pool.go can send on the closed queue.
use thorflux.Base.{ℕ, ◌≡◌, refl, ◌≢◌, inl, true, false, List, ◌∷◌, arith}
use thorflux.Pubsub.WorkerPool.{
  Pool, idle, crashed, new_worker_pool, Step, begin_batch, submit, submit_closed, give_up,
  end_batch, receive, write, recover, quit, begin_shutdown, end_shutdown, Reach, here, next,
}

-- Once `Shutdown` has begun nothing is being submitted, and nothing has crashed.
record IsQuiet (p : Pool) : Type 0 where
  safe : p.submitter ≢ crashed
  quiet_locked : p.locked ≡ true → p.submitter ≡ idle
  quiet_closed : p.closed ≡ true → p.submitter ≡ idle
  flagged : p.closed ≡ true → p.is_shutdown ≡ true

Step-IsQuiet : {p q : Pool} → Step true p q → IsQuiet p → IsQuiet q
Step-IsQuiet (begin_batch tasks i l s) v = ground arith
Step-IsQuiet (submit m rest e c l) v = ground arith
Step-IsQuiet (submit_closed m rest e c) v = ground arith
Step-IsQuiet (give_up tasks e c) v = ground arith
Step-IsQuiet (end_batch e) v = ground arith
Step-IsQuiet (receive m rest e l) v = ground arith
Step-IsQuiet (write m before after e) v = ground arith
Step-IsQuiet (recover m before after e) v = ground arith
Step-IsQuiet (quit l c) v = ground arith
Step-IsQuiet (begin_shutdown l s c) v = ground arith
Step-IsQuiet (end_shutdown l) v = ground arith

Reach-IsQuiet : {p q : Pool} → Reach true p q → IsQuiet p → IsQuiet q
Reach-IsQuiet here v = v
Reach-IsQuiet (next r st) v = Step-IsQuiet st (Reach-IsQuiet r v)

-- If `Shutdown` is never called while `SubmitBatch` runs, as in the subscriber, which makes both calls
-- itself, no send ever meets the closed queue.
pub Reach-apart-safe :
    (workers size : ℕ) {p : Pool}
    → Reach true (new_worker_pool workers size) p
    → p.submitter ≢ crashed
unfolding new_worker_pool
Reach-apart-safe workers size r = (Reach-IsQuiet r (ground arith)).safe

-- Otherwise the check at the head of `SubmitBatch` does not protect it: from every idle pool that is not
-- being shut down, a batch with a task in it can end in the panic of a send on the closed queue.
submit_batch_may_crash :
    (p : Pool) (t : ℕ) (rest : List ℕ)
    → p.submitter ≡ idle
    → p.locked ≡ false
    → p.is_shutdown ≡ false
    → (q : Pool) × Reach false p q × (q.submitter ≡ crashed)
submit_batch_may_crash p t rest i l s = (
  _,
  next
      (next (next (next here (begin_batch (t ∷ rest) i l s)) (begin_shutdown l s (inl refl)))
        (end_shutdown refl))
      (submit_closed t rest refl refl),
  refl,
)
