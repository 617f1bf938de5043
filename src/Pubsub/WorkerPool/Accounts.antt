-- ===== src/Pubsub/WorkerPool/Accounts.antt =====
-- No task of pubsub/worker_pool.go is lost or run twice, and the pool keeps its bounds.
use thorflux.Base.{
  ℕ, suc, ◌+◌, ◌≤◌, ◌<◌, ◌≡◌, refl, ap, Bool, List, [], ◌∷◌, ◌++◌, arith, length, count,
  length-append, count-append,
}
use thorflux.Pubsub.WorkerPool.{
  Pool, new_worker_pool, Step, begin_batch, submit, submit_closed, give_up, end_batch, receive,
  write, recover, quit, begin_shutdown, end_shutdown, Reach, here, next,
}

-- How often a task is queued, running, written or recovered.
abbrev pub placed : ℕ → Pool → ℕ
placed t p = count t p.queue + count t p.running + count t p.written + count t p.recovered

record IsBounded (workers size : ℕ) (p : Pool) : Type 0 where
  same_size : p.queue_size ≡ size
  queue_fits : length p.queue ≤ size
  running_live : length p.running ≤ p.live
  live_workers : p.live ≤ workers

abbrev Balanced : ℕ → Pool → Type 0
Balanced t p = placed t p ≡ count t p.accepted

count-without :
    (t m : ℕ) (before after xs : List ℕ)
    → xs ≡ before ++ m ∷ after
    → count t xs ≡ count t (m ∷ []) + count t (before ++ after)
count-without t m before after xs e =
    omega (arith, ap (count t) e, count-append t before (m ∷ after), count-append t before after)

length-without :
    (m : ℕ) (before after xs : List ℕ)
    → xs ≡ before ++ m ∷ after
    → length xs ≡ suc (length (before ++ after))
length-without m before after xs e =
    omega
      (arith, ap (length {A = ℕ}) e, length-append before (m ∷ after), length-append before after)

Step-Balanced : {a : Bool} {p q : Pool} (t : ℕ) → Step a p q → Balanced t p → Balanced t q
Step-Balanced t (begin_batch tasks i l s) b = b
Step-Balanced {p = p} t (submit m rest e c l) b = omega (arith, count-append t p.queue (m ∷ []))
Step-Balanced t (submit_closed m rest e c) b = b
Step-Balanced t (give_up tasks e c) b = b
Step-Balanced t (end_batch e) b = b
Step-Balanced t (receive m rest e l) b = omega (arith, ap (count t) e)
Step-Balanced {p = p} t (write m before after e) b =
    omega (arith, count-without t m before after p.running e)
Step-Balanced {p = p} t (recover m before after e) b =
    omega (arith, count-without t m before after p.running e)
Step-Balanced t (quit l w) b = b
Step-Balanced t (begin_shutdown l s w) b = b
Step-Balanced t (end_shutdown l) b = b

Step-IsBounded :
    {a : Bool} {p q : Pool} (workers size : ℕ)
    → Step a p q
    → IsBounded workers size p
    → IsBounded workers size q
Step-IsBounded w n (begin_batch tasks i l s) b = ground arith
Step-IsBounded {p = p} w n (submit m rest e c l) b = ground (arith, length-append p.queue (m ∷ []))
Step-IsBounded w n (submit_closed m rest e c) b = ground arith
Step-IsBounded w n (give_up tasks e c) b = ground arith
Step-IsBounded w n (end_batch e) b = ground arith
Step-IsBounded w n (receive m rest e l) b = ground (arith, ap (length {A = ℕ}) e)
Step-IsBounded {p = p} w n (write m before after e) b =
    ground (arith, length-without m before after p.running e)
Step-IsBounded {p = p} w n (recover m before after e) b =
    ground (arith, length-without m before after p.running e)
Step-IsBounded w n (quit l c) b = ground arith
Step-IsBounded w n (begin_shutdown l s c) b = ground arith
Step-IsBounded w n (end_shutdown l) b = ground arith

Reach-Balanced : {a : Bool} {p q : Pool} (t : ℕ) → Reach a p q → Balanced t p → Balanced t q
Reach-Balanced t here b = b
Reach-Balanced t (next r st) b = Step-Balanced t st (Reach-Balanced t r b)

Reach-IsBounded :
    {a : Bool} {p q : Pool} (workers size : ℕ)
    → Reach a p q
    → IsBounded workers size p
    → IsBounded workers size q
Reach-IsBounded w n here b = b
Reach-IsBounded w n (next r st) b = Step-IsBounded w n st (Reach-IsBounded w n r b)

-- In every interleaving of submitting, working and shutting down from a new pool of positive
-- sizes, each task that the queue accepted is queued, running, written or recovered, as often as
-- it was accepted; the queue holds at most its size and at most `workers` tasks run.
pub Reach-placed :
    (apart : Bool) (workers size t : ℕ) {p : Pool}
    → 0 < workers
    → 0 < size
    → Reach apart (new_worker_pool workers size) p
    → (placed t p ≡ count t p.accepted) × (length p.queue ≤ size) × (length p.running ≤ workers)
unfolding new_worker_pool
Reach-placed apart workers size t hw hs r =
    let b = Reach-IsBounded workers size r (ground arith) in
    (Reach-Balanced t r refl, b.queue_fits, omega arith)
