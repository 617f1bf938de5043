-- ===== src/Pubsub/Backward.antt =====
-- pubsub/backward_syncer.go: the range of the backward sync and the block numbers it hands out.
pub mod Range
pub mod Workers
use thorflux.Base.{ℕ, zero, suc, ◌-◌, ◌&&◌, List, [], ◌∷◌, ltb, if◌then◌else◌}

pub record BackwardSyncer : Type 0 where
  pub min_block : ℕ
  pub head : ℕ

-- `NewBackwardSyncer`: `minBlock` stays 0 unless the head lies above the number of blocks asked for.
unfoldable pub new_backward_syncer : ℕ → ℕ → BackwardSyncer
new_backward_syncer head back_sync_blocks = record {
  min_block = if ltb back_sync_blocks head then head - back_sync_blocks else 0;
  head = head;
}

-- The `for` of `Start`: `blockNum--` from the head while `blockNum > minBlock && blockNum > 0`.
-- `blockNum` falls by one each round, so the recursion is on the number itself.
unfoldable pub generate_work : ℕ → ℕ → List ℕ
generate_work min_block zero = []
generate_work min_block (suc n) =
    let rest = generate_work min_block n in
    if ltb min_block (suc n) && ltb 0 (suc n) then suc n ∷ rest else []

unfoldable pub start_work : BackwardSyncer → List ℕ
unfolding generate_work
start_work s = generate_work s.min_block s.head
