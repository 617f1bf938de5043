-- ===== src/Pubsub/Publisher.antt =====
-- pubsub/publisher.go: `NewPublisher` decides where the two syncers begin and how far back to go.
use thorflux.Base.{ℕ, ◌+◌, Option, none, some, ltb, leb, ◌==◌, if◌then◌else◌, u32, sub32}
use thorflux.Chain.{Block, Result, ok, err, ◌>>=◌, wrap, Revision, at_number, finalized, Client}
use thorflux.Pubsub.Backward.{BackwardSyncer, new_backward_syncer}
pub mod Plan
pub mod Start

-- `latest, err := db.Latest()`: an error leaves the zero value.
unfoldable pub latest_or_zero : Result ℕ → ℕ
latest_or_zero (ok n) = n
latest_or_zero (err e) = 0

-- The two adjustments of `backSyncBlocks`, on uint32.
unfoldable pub adjust_back_sync : (back first latest : ℕ) → ℕ
adjust_back_sync back first latest =
    let b = if ltb first back then sub32 first 1 else back in
    if ltb (sub32 first b) latest then (if leb first latest then 0 else sub32 first latest) else b

-- `strconv.FormatInt(int64(endBlock), 10)`, or "finalized" when there is no end block.
abbrev pub end_revision : ℕ → Revision
end_revision end_block = if end_block == 0 then finalized else at_number end_block

-- The number of the second block that is fetched, once `first` is known.
abbrev pub other_number : Block → ℕ
other_number first = if first.number == 0 then 1 else sub32 first.number 1

-- `first` and `previous`: the end block or the finalized one, with its predecessor; at genesis they
-- become block 1 and genesis.
unfoldable pub starting_blocks : Client → ℕ → Result (Block × Block)
starting_blocks c end_block = do
  found ← wrap "failed to get end/finalized block" (c.expanded_block (end_revision end_block))
  next ← wrap "failed to get previous block" (c.expanded_block (at_number (other_number found)))
  ok (if found.number == 0 then (next, found) else (found, next))

-- `forward` holds the block that the forward syncer starts behind; there is none with an end block.
pub record Publisher : Type 0 where
  pub backward : BackwardSyncer
  pub forward : Option Block
  pub hayabusa_fork_block : ℕ
  pub hayabusa_active_block : ℕ

unfoldable pub new_publisher : Client → (fork tp back end_block : ℕ) → Result ℕ → Result Publisher
unfolding starting_blocks adjust_back_sync latest_or_zero
new_publisher c fork tp back end_block latest = do
  (first, previous) ← starting_blocks c end_block
  let b = adjust_back_sync back first.number (latest_or_zero latest)
  ok (record {
    backward = new_backward_syncer first.number b;
    forward = if end_block == 0 then some previous else none;
    hayabusa_fork_block = fork;
    hayabusa_active_block = u32 (fork + tp);
  })
