-- ===== src/Pubsub/Publisher/Start.antt =====
-- Where the two syncers of pubsub/publisher.go meet.
use thorflux.Base.{some, ℕ, ◌+◌, ◌<◌, ◌≡◌, some, arith, u32_mod}
use thorflux.Chain.{
  >>=-eq-ok, wrap-eq-ok, finalized, wrap, Block, Result, ok, wrap, at_number, finalized, Client,
}
use thorflux.Pubsub.Backward.{new_backward_syncer}
use thorflux.Pubsub.Publisher.{
  Publisher, starting_blocks, new_publisher, end_revision, other_number,
}

-- The node answers a request by number with a block of that number.
abbrev pub AnswersByNumber : Client → Type 0
AnswersByNumber c = (n : ℕ) (b : Block) → c.expanded_block (at_number n) ≡ ok b → b.number ≡ n

starting_blocks-numbers :
    (c : Client) (end_block : ℕ) (pair : Block × Block)
    → AnswersByNumber c
    → ((b : Block) → c.expanded_block (end_revision end_block) ≡ ok b → b.number < u32_mod)
    → starting_blocks c end_block ≡ ok pair
    → pair.0.number ≡ pair.1.number + 1
unfolding starting_blocks
starting_blocks-numbers c end_block pair by_number in_range h =
    let (found, e1, rest) =
      >>=-eq-ok
        (wrap "failed to get end/finalized block" (c.expanded_block (end_revision end_block))) _
        h in
    let (next, e2, last) =
      >>=-eq-ok
        (wrap "failed to get previous block" (c.expanded_block (at_number (other_number found)))) _
        rest in
    ground (arith, in_range found (wrap-eq-ok _ _ e1), by_number _ next (wrap-eq-ok _ _ e2), last)

-- With no end block, the forward syncer starts right behind the block at which the backward sync
-- starts, so no block lies between the two, if the node answers a number with the block of that
-- number and the finalized block's number is a uint32.
pub new_publisher-meet :
    (c : Client) (fork tp back : ℕ) (latest : Result ℕ) {p : Publisher}
    → AnswersByNumber c
    → ((b : Block) → c.expanded_block finalized ≡ ok b → b.number < u32_mod)
    → new_publisher c fork tp back 0 latest ≡ ok p
    → (previous : Block) × (p.forward ≡ some previous) × (p.backward.head ≡ previous.number + 1)
unfolding new_publisher new_backward_syncer
new_publisher-meet c fork tp back latest by_number in_range h =
    let (pair, e, rest) = >>=-eq-ok (starting_blocks c 0) _ h in
    (
      pair.1,
      ground (arith, rest),
      ground (arith, rest, starting_blocks-numbers c 0 pair by_number in_range e),
    )
