-- ===== src/Pubsub/Backward/Range.antt =====
-- The work list of pubsub/backward_syncer.go is the range above `minBlock`, downwards.
use thorflux.Base.{ℕ, zero, suc, ◌≡◌, ◌&&◌, arith, ltb, leb, if◌then◌else◌, count}
use thorflux.Pubsub.Backward.{BackwardSyncer, generate_work, start_work}

count-generate_work :
    (n min_block head : ℕ)
    → count n (generate_work min_block head) ≡ (if ltb min_block n && leb n head then 1 else 0)
unfolding generate_work
count-generate_work n min_block zero = ground arith
count-generate_work n min_block (suc k) = ground (arith, count-generate_work n min_block k)

-- The producer hands out each block number above `min_block` and up to `head` exactly once, and no
-- other number.
pub start_work-count :
    (s : BackwardSyncer) (n : ℕ)
    → count n (start_work s) ≡ (if ltb s.min_block n && leb n s.head then 1 else 0)
unfolding start_work
start_work-count s n = count-generate_work n s.min_block s.head
