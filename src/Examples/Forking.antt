-- ===== src/Examples/Forking.antt =====
-- The theorems on forks, at the side chain of two blocks.
use thorflux.Base.{◌+◌, ◌≡◌, refl, ◌≢◌, ◌⊎◌, none, some, List, [], ◌∷◌, arith}
use thorflux.Chain.{Block, ok, at_number, at_id}
use thorflux.Pubsub.Forks.{
  reduce_to, compare_parents, fetch_side, round, next_round, side_loop, from_height, get_side_chain,
  write_from, fork_point, write_forked_block, DbOp, delete_between, write_fork, kept_measurements,
  finish_resolve, resolve,
}
use thorflux.Pubsub.Forks.Branch.{Branch, fork, longer, get_side_chain_sound}
use thorflux.Pubsub.Forks.Total.{get_side_chain_total, get_side_chain_complete}
use thorflux.Pubsub.Forks.Written.{Describes, write_forked_block-Describes}
use thorflux.Examples.Data.{client, client-Descends, root, best_3, side_2, side_3, block_of}

abbrev genesis : Block
genesis = block_of 0 100 99

test-get_side_chain :
    get_side_chain client best_3 side_3 genesis 4 ≡ some (ok (side_3 ∷ side_2 ∷ []))
unfolding get_side_chain from_height side_loop next_round round fetch_side compare_parents reduce_to
test-get_side_chain = refl

get_side_chain_sound_example :
    (b : Block) × (client.expanded_block (at_number 3) ≡ ok b)
    × (((b.id ≡ 203) × (side_3 ∷ side_2 ∷ [] ≡ []))
        ⊎ ((l : List Block) × (a : Block) × (side_3 ∷ side_2 ∷ [] ≡ side_3 ∷ l)
            × Branch client a b (side_3 ∷ l)))
get_side_chain_sound_example =
    get_side_chain_sound client best_3 side_3 genesis 4 (side_3 ∷ side_2 ∷ []) test-get_side_chain

get_side_chain_total_example : get_side_chain client best_3 side_3 genesis 4 ≢ none
get_side_chain_total_example =
    get_side_chain_total client best_3 side_3 genesis client-Descends (at_id 203, refl)

two_long : Branch client root best_3 (side_3 ∷ side_2 ∷ [])
two_long =
    longer (λ e. absurd (omega (arith, e))) refl refl
      (fork (λ e. absurd (omega (arith, e))) refl refl refl)

get_side_chain_complete_example :
    get_side_chain client best_3 side_3 genesis 2 ≡ some (ok (side_3 ∷ side_2 ∷ []))
get_side_chain_complete_example =
    get_side_chain_complete client best_3 side_3 genesis best_3 root (side_2 ∷ []) 2 (omega arith)
      refl two_long ((λ e. absurd (omega (arith, e))), tt) (omega arith)

write_forked_block-Describes_example :
    (3 ≡ 1 + 2)
    × Describes 203 2 1 (side_3 ∷ side_2 ∷ []) (write_forked_block (side_3 ∷ side_2 ∷ []))
write_forked_block-Describes_example =
    write_forked_block-Describes client root best_3 side_3 (side_2 ∷ []) client-Descends
      (at_id 203, refl) two_long

abbrev resolved_ops : List DbOp
resolved_ops =
    delete_between 1 4600 kept_measurements
    ∷ write_fork (fork_point 203 2 0 side_3)
    ∷ write_fork (fork_point 203 2 1 side_2)
    ∷ []

test-resolve : resolve client 1000 (ok tt) best_3 side_3 genesis 4 ≡ some (resolved_ops, ok tt)
unfolding resolve finish_resolve write_forked_block write_from fork_point get_side_chain from_height
    side_loop next_round round fetch_side compare_parents reduce_to
test-resolve = refl
