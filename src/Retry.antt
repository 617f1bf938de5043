-- ===== src/Retry.antt =====
-- common/retry.go. The outcome of the i-th call of `fn` and the time since the start that the check
-- after it reads are functions of i: `fn` and the clock are the caller's.
pub mod Bounds
use thorflux.Base.{ℕ, zero, suc, ◌+◌, ◌*◌, Option, none, some, List, [], ◌∷◌, ltb, if◌then◌else◌}
use thorflux.Chain.{Result, ok, err, wrapped}

-- What a caller sees: the sleeps, in order, and what is returned.
abbrev pub Retried {ℓ} : Type ℓ → Type ℓ
Retried A = List ℕ × Result A

abbrev pub after_sleep {ℓ} : {A : Type ℓ} → ℕ → Option (Retried A) → Option (Retried A)
after_sleep delay none = none
after_sleep delay (some (sleeps, r)) = some (delay ∷ sleeps, r)

module _ {ℓ} {A : Type ℓ} (outcome : ℕ → Result A) (elapsed : ℕ → ℕ) (max_wait : ℕ)
    (grow : ℕ → ℕ) where
  -- The end of a round in which `fn` has answered, where `again` is the rest of the loop.
  unfoldable pub retry_round : (delay i : ℕ) → Option (Retried A) → Result A → Option (Retried A)
  retry_round delay i again (ok a) = some ([], ok a)
  retry_round delay i again (err e) =
      if ltb max_wait (elapsed i)
      then some ([], err (wrapped "retry timeout, latest err" e))
      else after_sleep delay again

  -- The `for` of both functions, on fuel; `none` means that the fuel ran out.
  unfoldable pub retry_loop : ℕ → (delay i : ℕ) → Option (Retried A)
  unfolding retry_round
  retry_loop zero delay i = none
  retry_loop (suc fuel) delay i =
      let again = retry_loop fuel (grow delay) (i + 1) in retry_round delay i again (outcome i)

-- `Retry`: the delay stays as it is.
unfoldable pub retry {ℓ} :
    {A : Type ℓ} → (ℕ → Result A) → (ℕ → ℕ) → (retry_period max_wait fuel : ℕ) → Option (Retried A)
unfolding retry_loop
retry outcome elapsed retry_period max_wait fuel =
    retry_loop outcome elapsed max_wait (λ d. d) fuel retry_period 0

-- `delay *= 10`, capped at `maxDelay`.
unfoldable pub increase : ℕ → ℕ → ℕ
increase max_delay delay = if ltb max_delay (delay * 10) then max_delay else delay * 10

unfoldable pub retry_increasing {ℓ} :
    {A : Type ℓ}
    → (ℕ → Result A)
    → (ℕ → ℕ)
    → (initial_delay max_delay max_wait fuel : ℕ) → Option (Retried A)
unfolding retry_loop increase
retry_increasing outcome elapsed initial_delay max_delay max_wait fuel =
    retry_loop outcome elapsed max_wait (increase max_delay) fuel initial_delay 0
