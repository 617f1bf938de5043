-- ===== src/Pubsub/Publisher/Plan.antt =====
-- Which blocks the backward sync of pubsub/publisher.go covers.
use thorflux.Base.{
  ℕ, ◌-◌, ◌≤◌, ◌<◌, max, ◌≡◌, ◌&&◌, List, arith, ltb, leb, if◌then◌else◌, count, u32_mod,
}
use thorflux.Pubsub.Backward.{start_work, new_backward_syncer}
use thorflux.Pubsub.Backward.Range.{start_work-count}
use thorflux.Pubsub.Publisher.{adjust_back_sync}

abbrev pub planned : (back first latest : ℕ) → List ℕ
planned back first latest =
    start_work (new_backward_syncer first (adjust_back_sync back first latest))

module _ (back first latest n : ℕ) (first_pos : 0 < first) (first_u32 : first < u32_mod) where
  -- With no more blocks asked for than exist, and `first` a positive uint32, each block above both
  -- the database's latest block and `first - back`, and up to `first`, is fetched exactly once,
  -- and no other block.
  planned-count :
      back ≤ first
      → count n (planned back first latest)
        ≡ (if ltb (max latest (first - back)) n && leb n first then 1 else 0)
  unfolding adjust_back_sync new_backward_syncer
  planned-count h =
      ground
        (arith, start_work-count (new_backward_syncer first (adjust_back_sync back first latest)) n)

module _ (back first latest n : ℕ) (first_pos : 0 < first) (first_u32 : first < u32_mod) where
  -- With more blocks asked for than exist, and `first` a positive uint32, the backward sync stops
  -- above block 1: blocks 2 to `first` that lie above the database's latest block are fetched
  -- exactly once, and block 1 never.
  pub planned-count_over :
      first < back
      → count n (planned back first latest) ≡ (if ltb (max latest 1) n && leb n first then 1 else 0)
  unfolding adjust_back_sync new_backward_syncer
  planned-count_over h =
      ground
        (arith, start_work-count (new_backward_syncer first (adjust_back_sync back first latest)) n)
