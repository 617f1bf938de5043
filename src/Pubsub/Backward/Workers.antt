-- ===== src/Pubsub/Backward/Workers.antt =====
-- pubsub/backward_syncer.go: `Start` and `worker` as interleaved steps over the work channel.
use thorflux.Base.{
  ℕ, ◌+◌, ◌*◌, ◌≤◌, ◌<◌, ◌≡◌, refl, ap, ◌∙◌, ◌⊎◌, Bool, true, false, ◌&&◌, List, [], ◌∷◌, ◌++◌,
  arith, ltb, leb, if◌then◌else◌, length, count, length-append, count-append,
}
use thorflux.Pubsub.Backward.{BackwardSyncer, start_work}
use thorflux.Pubsub.Backward.Range.{start_work-count}

-- `backwardWorkers`; the channel is made with twice as many places.
abbrev pub backward_workers : ℕ
backward_workers = 100

-- `todo` is what the `for` has still to hand out and `queued` what stands in `workChan`. `busy` holds
-- the number each running worker has received. What a worker does with it is `sent` on `blockChan`,
-- `failed` (`ProcessBlock` returned an error) or `dropped` (the context ended first).
pub record Sync : Type 0 where
  pub todo : List ℕ
  pub queued : List ℕ
  pub busy : List ℕ
  pub sent : List ℕ
  pub failed : List ℕ
  pub dropped : List ℕ
  pub cancelled : Bool
  pub closed : Bool

abbrev pub start : BackwardSyncer → Sync
start s = record {
  todo = start_work s;
  queued = [];
  busy = [];
  sent = [];
  failed = [];
  dropped = [];
  cancelled = false;
  closed = false;
}

-- One step of the producer, of a worker, or of the context.
pub data Step (s : Sync) : Sync → Type 0 where
  -- `case workChan <- blockNum`
  hand_out :
      (n : ℕ) (rest : List ℕ)
      → s.todo ≡ n ∷ rest
      → s.closed ≡ false
      → length s.queued < backward_workers * 2
      → Step s (record s { todo = rest; queued = s.queued ++ n ∷ [] })
  -- the loop ends, or returns on `ctx.Done()`; the deferred call closes `workChan`
  close_work :
      s.closed ≡ false → (s.todo ≡ []) ⊎ (s.cancelled ≡ true) → Step s (record s { closed = true })
  -- `case blockNum, ok := <-workChan`
  receive :
      (n : ℕ) (rest : List ℕ)
      → s.queued ≡ n ∷ rest
      → length s.busy < backward_workers
      → Step s (record s { queued = rest; busy = n ∷ s.busy })
  -- `ProcessBlock` fails: `continue`
  fail :
      (n : ℕ) (before after : List ℕ)
      → s.busy ≡ before ++ n ∷ after
      → Step s (record s { busy = before ++ after; failed = n ∷ s.failed })
  -- `case s.blockChan <- blockEvent`
  send :
      (n : ℕ) (before after : List ℕ)
      → s.busy ≡ before ++ n ∷ after
      → Step s (record s { busy = before ++ after; sent = n ∷ s.sent })
  -- `case <-ctx.Done()` while the event waits for a place
  drop_block :
      (n : ℕ) (before after : List ℕ)
      → s.cancelled ≡ true
      → s.busy ≡ before ++ n ∷ after
      → Step s (record s { busy = before ++ after; dropped = n ∷ s.dropped })
  cancel : Step s (record s { cancelled = true })

pub data Reach (s : Sync) : Sync → Type 0 where
  here : Reach s s
  next : {t u : Sync} → Reach s t → Step t u → Reach s u

-- How often a number stands anywhere in the state.
abbrev pub held : ℕ → Sync → ℕ
held n s =
    count n s.todo
    + count n s.queued
    + count n s.busy
    + count n s.sent
    + count n s.failed
    + count n s.dropped

-- Nothing is dropped and the channel is not closed early unless the context has ended.
pub record Inv (s : Sync) : Type 0 where
  pub queue_bounded : length s.queued ≤ backward_workers * 2
  pub workers_bounded : length s.busy ≤ backward_workers
  pub no_drop : s.cancelled ≡ false → s.dropped ≡ []
  pub closed_done : s.closed ≡ true → s.cancelled ≡ false → s.todo ≡ []

Step-held : {s t : Sync} (n : ℕ) → Step s t → held n t ≡ held n s
Step-held {s} n (hand_out m rest e open_ h) =
    omega (arith, ap (count n) e, count-append n s.queued (m ∷ []))
Step-held n (close_work open_ h) = refl
Step-held n (receive m rest e h) = omega (arith, ap (count n) e)
Step-held {s} n (fail m before after e) =
    omega (arith, ap (count n) e, count-append n before (m ∷ after), count-append n before after)
Step-held {s} n (send m before after e) =
    omega (arith, ap (count n) e, count-append n before (m ∷ after), count-append n before after)
Step-held {s} n (drop_block m before after c e) =
    omega (arith, ap (count n) e, count-append n before (m ∷ after), count-append n before after)
Step-held n cancel = refl

Reach-held : {s t : Sync} (n : ℕ) → Reach s t → held n t ≡ held n s
Reach-held n here = refl
Reach-held n (next r st) = Step-held n st ∙ Reach-held n r

length-without :
    (m : ℕ) (before after : List ℕ) (busy : List ℕ)
    → busy ≡ before ++ m ∷ after
    → length (before ++ after) ≤ length busy
length-without m before after busy e =
    omega
      (arith, ap (length {A = ℕ}) e, length-append before (m ∷ after), length-append before after)

Step-Inv : {s t : Sync} → Step s t → Inv s → Inv t
Step-Inv {s} (hand_out m rest e open_ h) v = ground (arith, length-append s.queued (m ∷ []))
Step-Inv (close_work open_ h) v = ground arith
Step-Inv (receive m rest e h) v = ground (arith, ap (length {A = ℕ}) e)
Step-Inv {s} (fail m before after e) v = ground (arith, length-without m before after s.busy e)
Step-Inv {s} (send m before after e) v = ground (arith, length-without m before after s.busy e)
Step-Inv {s} (drop_block m before after c e) v =
    ground (arith, length-without m before after s.busy e)
Step-Inv cancel v = ground arith

Reach-Inv : {s t : Sync} → Reach s t → Inv s → Inv t
Reach-Inv here v = v
Reach-Inv (next r st) v = Step-Inv st (Reach-Inv r v)

start-Inv : (s : BackwardSyncer) → Inv (start s)
start-Inv s = ground arith

-- The sync is over: the channel is closed and empty, and every worker has returned.
abbrev pub IsOver : Sync → Type 0
IsOver s = (s.closed ≡ true) × (s.queued ≡ []) × (s.busy ≡ [])

-- In every interleaving, at most 200 numbers are queued and at most 100 are being processed, and each
-- number above `min_block` and up to `head` stands exactly once in what is still to do, queued, in
-- work, sent, failed or dropped, and no other number stands anywhere.
pub Reach-accounts :
    (b : BackwardSyncer) {t : Sync} (n : ℕ)
    → Reach (start b) t
    → (length t.queued ≤ 200)
      × (length t.busy ≤ 100)
      × (held n t ≡ (if ltb b.min_block n && leb n b.head then 1 else 0))
Reach-accounts b n r =
    let v = Reach-Inv r (start-Inv b) in
    (v.queue_bounded, v.workers_bounded, omega (arith, Reach-held n r, start_work-count b n))

-- When the sync is over and the context has not ended, each number above `min_block` and up to
-- `head` has been sent or has failed, exactly once, and no other number has.
pub Reach-complete :
    (b : BackwardSyncer) {t : Sync} (n : ℕ)
    → Reach (start b) t
    → IsOver t
    → t.cancelled ≡ false
    → count n t.sent + count n t.failed ≡ (if ltb b.min_block n && leb n b.head then 1 else 0)
Reach-complete b {t} n r over quiet =
    let v = Reach-Inv r (start-Inv b) in
    omega (
      arith,
      Reach-held n r,
      start_work-count b n,
      ap (count n) (v.no_drop quiet),
      ap (count n) (v.closed_done over.0 quiet),
      ap (count n) over.1,
      ap (count n) over.2,
    )
