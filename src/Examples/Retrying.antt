-- ===== src/Examples/Retrying.antt =====
-- Runs of common/retry.go, and its theorems at them.
use thorflux.Base.{ℕ, zero, suc, ◌≤◌, ◌≡◌, refl, some, [], ◌∷◌, arith, All}
use thorflux.Chain.{Result, ok, err, not_found, wrapped}
use thorflux.Retry.{retry, retry_increasing, retry_loop, retry_round, increase}
use thorflux.Retry.Bounds.{Explains, retry_increasing-Explains}

-- Two failures, then a success.
abbrev third_time : ℕ → Result ℕ
third_time zero = err not_found
third_time (suc zero) = err not_found
third_time (suc (suc n)) = ok 7

abbrev ticks : ℕ → ℕ
ticks n = n

test-retry : retry third_time ticks 5 100 10 ≡ some (5 ∷ 5 ∷ [], ok 7)
unfolding retry retry_loop retry_round
test-retry = refl

test-retry_timeout :
    retry third_time (λ n. 200) 5 100 10
    ≡ some ([], err (wrapped "retry timeout, latest err" not_found))
unfolding retry retry_loop retry_round
test-retry_timeout = refl

test-retry_increasing :
    retry_increasing third_time ticks 100 500 1000 10 ≡ some (100 ∷ 500 ∷ [], ok 7)
unfolding retry_increasing retry_loop retry_round increase
test-retry_increasing = refl

retry_increasing-Explains_example :
    Explains third_time ticks 1000 (increase 500) 0 (100 ∷ 500 ∷ []) (ok 7)
    × All (λ d. d ≤ 500) (100 ∷ 500 ∷ [])
retry_increasing-Explains_example =
    retry_increasing-Explains third_time ticks 100 500 1000 10 (100 ∷ 500 ∷ [], ok 7) (omega arith)
      test-retry_increasing
