-- ===== src/Retry/Bounds.antt =====
-- How long the loops of common/retry.go run, and what they return.
use thorflux.Base.{
  ℕ, zero, suc, ◌+◌, ◌-◌, ◌≤◌, ◌<◌, ◌≡◌, refl, ◌≢◌, inl, inr, Option, none, some, List, [], ◌∷◌,
  arith, ltb, Bool-cases, All,
}
use thorflux.Chain.{Error, Result, ok, err, wrapped}
use thorflux.Retry.{Retried, retry_loop, retry_round, retry_increasing, after_sleep, increase}

increase-le : (max_delay d : ℕ) → increase max_delay d ≤ max_delay
unfolding increase
increase-le max_delay d = ground arith

-- The clock runs on by at least the delay that is slept, and every delay is positive.
module _ {ℓ} {A : Type ℓ} (outcome : ℕ → Result A) (elapsed : ℕ → ℕ) (max_wait : ℕ)
    (grow : ℕ → ℕ) where
  retry_loop_total :
      (fuel delay i : ℕ)
      → ((j : ℕ) → elapsed j < elapsed (j + 1))
      → max_wait + 1 - elapsed i < fuel
      → retry_loop outcome elapsed max_wait grow fuel delay i ≢ none
  unfolding retry_loop
  retry_loop_total zero delay i clock h = absurd (omega arith)
  retry_loop_total (suc fuel) delay i clock h =
      ground (arith, clock i, retry_loop_total fuel (grow delay) (i + 1) clock)

  -- What the result says of the calls that were made from the i-th on.
  abbrev pub Explains : ℕ → List ℕ → Result A → Type ℓ
  Explains i [] (ok a) = outcome i ≡ ok a
  Explains i [] (err x) =
      (e : Error) × (outcome i ≡ err e)
      × (x ≡ wrapped "retry timeout, latest err" e)
      × (max_wait < elapsed i)
  Explains i (d ∷ ds) r =
      (e : Error) × (outcome i ≡ err e) × (elapsed i ≤ max_wait) × Explains (i + 1) ds r

  after_sleep-eq_some :
      (delay : ℕ) (o : Option (Retried A)) {out : Retried A}
      → after_sleep delay o ≡ some out
      → (ds : List ℕ) × (o ≡ some (ds, out.1)) × (out.0 ≡ delay ∷ ds)
  after_sleep-eq_some delay none h = cc
  after_sleep-eq_some delay (some (ds, r)) h = (ds, cc, cc)

  retry_round-Explains :
      (delay i : ℕ) (again : Option (Retried A)) (o : Result A) (out : Retried A)
      → outcome i ≡ o
      → ((ds : List ℕ) → again ≡ some (ds, out.1) → Explains (i + 1) ds out.1)
      → retry_round outcome elapsed max_wait grow delay i again o ≡ some out
      → Explains i out.0 out.1
  unfolding retry_round
  retry_round-Explains delay i again (ok a) out e ih h = let p : out ≡ ([], ok a) = cc in rw p e
  retry_round-Explains delay i again (err x) out e ih h =
      elim (Bool-cases (ltb max_wait (elapsed i))) [
        | inl late ↦
            let q : some ([], err (wrapped "retry timeout, latest err" x)) ≡ some out =
              rw late at h in
            let p : out ≡ ([], err (wrapped "retry timeout, latest err" x)) = cc in
            rw p (x, e, refl, ground arith)
        | inr early ↦
            let (ds, again_eq, sleeps_eq) = after_sleep-eq_some delay again (rw early at h) in
            rw sleeps_eq (x, e, ground arith, ih ds again_eq)
      ]

  retry_loop-Explains :
      (fuel delay i : ℕ) (out : Retried A)
      → retry_loop outcome elapsed max_wait grow fuel delay i ≡ some out
      → Explains i out.0 out.1
  unfolding retry_loop
  retry_loop-Explains zero delay i out h = cc
  retry_loop-Explains (suc fuel) delay i out h =
      retry_round-Explains delay i
        (retry_loop outcome elapsed max_wait grow fuel (grow delay) (i + 1)) (outcome i) out refl
        (λ ds e. retry_loop-Explains fuel (grow delay) (i + 1) (ds, out.1) e) h

  retry_round-sleeps :
      (delay i : ℕ) (again : Option (Retried A)) (o : Result A) (out : Retried A) (top : ℕ)
      → delay ≤ top
      → ((ds : List ℕ) → again ≡ some (ds, out.1) → All (λ d. d ≤ top) ds)
      → retry_round outcome elapsed max_wait grow delay i again o ≡ some out
      → All (λ d. d ≤ top) out.0
  unfolding retry_round
  retry_round-sleeps delay i again (ok a) out top d ih h = let p : out ≡ ([], ok a) = cc in rw p tt
  retry_round-sleeps delay i again (err x) out top d ih h =
      elim (Bool-cases (ltb max_wait (elapsed i))) [
        | inl late ↦
            let q : some ([], err (wrapped "retry timeout, latest err" x)) ≡ some out =
              rw late at h in
            let p : out ≡ ([], err (wrapped "retry timeout, latest err" x)) = cc in rw p tt
        | inr early ↦
            let (ds, again_eq, sleeps_eq) = after_sleep-eq_some delay again (rw early at h) in
            rw sleeps_eq (d, ih ds again_eq)
      ]

  retry_loop-sleeps :
      (fuel delay i : ℕ) (out : Retried A) (top : ℕ)
      → ((d : ℕ) → grow d ≤ top)
      → delay ≤ top
      → retry_loop outcome elapsed max_wait grow fuel delay i ≡ some out
      → All (λ d. d ≤ top) out.0
  unfolding retry_loop
  retry_loop-sleeps zero delay i out top g d h = cc
  retry_loop-sleeps (suc fuel) delay i out top g d h =
      retry_round-sleeps delay i
        (retry_loop outcome elapsed max_wait grow fuel (grow delay) (i + 1)) (outcome i) out top d
        (λ ds e. retry_loop-sleeps fuel (grow delay) (i + 1) (ds, out.1) top g (g delay) e) h

module _ {ℓ} {A : Type ℓ} (outcome : ℕ → Result A) (elapsed : ℕ → ℕ) where
  -- `RetryIncreasing` ends when the clock moves on between two checks: as many rounds as `maxWaitTime`
  -- has units, and two more, are enough.
  pub retry_increasing_total :
      (initial_delay max_delay max_wait : ℕ)
      → ((j : ℕ) → elapsed j < elapsed (j + 1))
      → retry_increasing outcome elapsed initial_delay max_delay max_wait (max_wait + 2) ≢ none
  unfolding retry_increasing
  retry_increasing_total initial_delay max_delay max_wait clock =
      retry_loop_total outcome elapsed max_wait (increase max_delay) (max_wait + 2) initial_delay 0
        clock (omega arith)

  -- `RetryIncreasing` calls `fn` until it succeeds or a failure is seen after `maxWaitTime`: it returns
  -- the first success, or the last failure wrapped; each earlier call failed in time, there is one
  -- sleep for each, and no sleep is longer than `maxDelay`, if the first is not.
  pub retry_increasing-Explains :
      (initial_delay max_delay max_wait fuel : ℕ) (out : Retried A)
      → initial_delay ≤ max_delay
      → retry_increasing outcome elapsed initial_delay max_delay max_wait fuel ≡ some out
      → Explains outcome elapsed max_wait (increase max_delay) 0 out.0 out.1
        × All (λ d. d ≤ max_delay) out.0
  unfolding retry_increasing
  retry_increasing-Explains initial_delay max_delay max_wait fuel out le h = (
    retry_loop-Explains outcome elapsed max_wait (increase max_delay) fuel initial_delay 0 out h,
    retry_loop-sleeps outcome elapsed max_wait (increase max_delay) fuel initial_delay 0 out
        max_delay (increase-le max_delay) le h,
  )

  Explains-ok :
      (max_wait : ℕ) (grow : ℕ → ℕ) (i : ℕ) (ds : List ℕ) (a : A)
      → Explains outcome elapsed max_wait grow i ds (ok a)
      → (j : ℕ) × (outcome j ≡ ok a)
  Explains-ok max_wait grow i [] a x = (i, x)
  Explains-ok max_wait grow i (d ∷ ds) a x = Explains-ok max_wait grow (i + 1) ds a x.3

  pub retry_increasing-ok :
      (initial_delay max_delay max_wait fuel : ℕ) (sleeps : List ℕ) (a : A)
      → initial_delay ≤ max_delay
      → retry_increasing outcome elapsed initial_delay max_delay max_wait fuel ≡ some (sleeps, ok a)
      → (j : ℕ) × (outcome j ≡ ok a)
  retry_increasing-ok initial_delay max_delay max_wait fuel sleeps a le h =
      Explains-ok max_wait (increase max_delay) 0 sleeps a
        (retry_increasing-Explains initial_delay max_delay max_wait fuel (sleeps, ok a) le h).0
