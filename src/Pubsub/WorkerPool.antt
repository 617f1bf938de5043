-- ===== src/Pubsub/WorkerPool.antt =====
-- pubsub/worker_pool.go: the pool as interleaved steps of one submitter, the workers and `Shutdown`.
pub mod Accounts
pub mod Shutdown
use thorflux.Base.{
  ℕ, ◌-◌, ◌<◌, ◌≡◌, ◌⊎◌, Bool, true, false, List, [], ◌∷◌, ◌++◌, ltb, if◌then◌else◌, length,
}

-- Where `SubmitBatch` stands: not running, past its check of `isShutdown` with these tasks to send, or
-- stopped by the panic of a send on a closed channel.
pub data Submitter : Type 0 where
  idle : Submitter
  sending : List ℕ → Submitter
  crashed : Submitter

-- Tasks are numbers. `accepted` lists the tasks that the queue has taken; a task whose handler panics
-- is `recovered`, any other ends `written`. `live` workers have not returned. `locked` is `mu`, held
-- by `Shutdown`.
pub record Pool : Type 0 where
  pub queue_size : ℕ
  pub workers : ℕ
  pub live : ℕ
  pub queue : List ℕ
  pub running : List ℕ
  pub written : List ℕ
  pub recovered : List ℕ
  pub accepted : List ℕ
  pub submitter : Submitter
  pub locked : Bool
  pub cancelled : Bool
  pub closed : Bool
  pub is_shutdown : Bool

-- `config.DefaultWorkerPoolSize` and `config.DefaultTaskQueueSize`.
abbrev pub default_worker_pool_size : ℕ
default_worker_pool_size = 10

abbrev pub default_task_queue_size : ℕ
default_task_queue_size = 100

-- `NewWorkerPool`; a size that is not positive is replaced.
unfoldable pub new_worker_pool : ℕ → ℕ → Pool
new_worker_pool workers queue_size =
    let n = if ltb 0 workers then workers else default_worker_pool_size in
    record {
      queue_size = if ltb 0 queue_size then queue_size else default_task_queue_size;
      workers = n;
      live = n;
      queue = [];
      running = [];
      written = [];
      recovered = [];
      accepted = [];
      submitter = idle;
      locked = false;
      cancelled = false;
      closed = false;
      is_shutdown = false;
    }

-- One step. `apart` says that `Shutdown` is not called while `SubmitBatch` runs.
pub data Step (apart : Bool) (p : Pool) : Pool → Type 0 where
  -- `SubmitBatch` passes its check under the read lock; where it fails the call returns an error
  begin_batch :
      (tasks : List ℕ)
      → p.submitter ≡ idle
      → p.locked ≡ false
      → p.is_shutdown ≡ false
      → Step apart p (record p { submitter = sending tasks })
  -- `case wp.taskQueue <- task`
  submit :
      (t : ℕ) (rest : List ℕ)
      → p.submitter ≡ sending (t ∷ rest)
      → p.closed ≡ false
      → length p.queue < p.queue_size
      → Step apart p (record p {
        submitter = sending rest;
        queue = p.queue ++ t ∷ [];
        accepted = t ∷ p.accepted;
      })
  -- the same case, on the closed channel
  submit_closed :
      (t : ℕ) (rest : List ℕ)
      → p.submitter ≡ sending (t ∷ rest)
      → p.closed ≡ true
      → Step apart p (record p { submitter = crashed })
  -- `case <-wp.ctx.Done()`: the call returns an error
  give_up :
      (tasks : List ℕ)
      → p.submitter ≡ sending tasks
      → p.cancelled ≡ true
      → Step apart p (record p { submitter = idle })
  -- the loop is over: `return nil`
  end_batch : p.submitter ≡ sending [] → Step apart p (record p { submitter = idle })
  -- a worker receives a task, also after the cancellation: the select is free to choose
  receive :
      (t : ℕ) (rest : List ℕ)
      → p.queue ≡ t ∷ rest
      → length p.running < p.live
      → Step apart p (record p { queue = rest; running = t ∷ p.running })
  -- `processTask`: the handler returns and its points are written
  write :
      (t : ℕ) (before after : List ℕ)
      → p.running ≡ before ++ t ∷ after
      → Step apart p (record p { running = before ++ after; written = t ∷ p.written })
  -- `processTask`: the handler panics and the worker recovers
  recover :
      (t : ℕ) (before after : List ℕ)
      → p.running ≡ before ++ t ∷ after
      → Step apart p (record p { running = before ++ after; recovered = t ∷ p.recovered })
  -- an idle worker returns: the context has ended, or the queue is closed and empty
  quit :
      length p.running < p.live
      → (p.cancelled ≡ true) ⊎ ((p.closed ≡ true) × (p.queue ≡ []))
      → Step apart p (record p { live = p.live - 1 })
  -- `Shutdown` takes the lock and cancels the context
  begin_shutdown :
      p.locked ≡ false
      → p.is_shutdown ≡ false
      → (apart ≡ false) ⊎ (p.submitter ≡ idle)
      → Step apart p (record p { locked = true; cancelled = true })
  -- `Shutdown` closes the queue, sets the flag and gives the lock back
  end_shutdown :
      p.locked ≡ true
      → Step apart p (record p { locked = false; closed = true; is_shutdown = true })

pub data Reach (apart : Bool) (p : Pool) : Pool → Type 0 where
  here : Reach apart p p
  next : {q r : Pool} → Reach apart p q → Step apart q r → Reach apart p r
