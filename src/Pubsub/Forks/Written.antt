-- ===== src/Pubsub/Forks/Written.antt =====
-- The points that pubsub/fork_handler.go writes for a side chain.
use thorflux.Base.{
  ℕ, ◌+◌, ◌≡◌, refl, ◌⊎◌, inl, inr, Option, none, some, List, [], ◌∷◌, map, arith, length,
}
use thorflux.Chain.{wrapped, Block, Error, Result, ok, err, at_id, Client}
use thorflux.Pubsub.Forks.{
  finish_resolve, ForkPoint, write_from, write_forked_block, DbOp, delete_between, write_fork,
  kept_measurements, get_side_chain, resolve,
}
use thorflux.Pubsub.Forks.Branch.{Branch, fork, longer}
use thorflux.Pubsub.Forks.Total.{IsKnown, Descends}

-- Each point shows its block's distance from the ancestor as its index, and what else the block holds.
abbrev pub Describes : (group len ancestor : ℕ) → List Block → List ForkPoint → Type 0
Describes group len ancestor [] [] = Unit {0}
Describes group len ancestor [] (p ∷ ps) = ⊥
Describes group len ancestor (b ∷ bs) [] = ⊥
Describes group len ancestor (b ∷ bs) (p ∷ ps) =
    (p.group ≡ group)
    × (p.length ≡ len)
    × (p.index + ancestor ≡ b.number)
    × (p.id ≡ b.id)
    × (p.parent_id ≡ b.parent_id)
    × Describes group len ancestor bs ps

Branch-length :
    (c : Client) (a best b : Block) (l : List Block)
    → Descends c
    → IsKnown c b
    → Branch c a best (b ∷ l)
    → b.number ≡ a.number + length (b ∷ l)
Branch-length c a best b _ d k (fork _ hp ha e) = omega (arith, d b a k ha)
Branch-length c a best b _ d k (longer {best' = best'} {b' = b'} {l = l} _ hb hs br) =
    omega (arith, d b b' k hs, Branch-length c a best' b' l d (at_id b.parent_id, hs) br)

write_from-Describes :
    (c : Client) (a best b : Block) (l : List Block) (group len i : ℕ)
    → Descends c
    → IsKnown c b
    → Branch c a best (b ∷ l)
    → i + length (b ∷ l) ≡ len
    → Describes group len a.number (b ∷ l) (write_from group len i (b ∷ l))
unfolding write_from
write_from-Describes c a best b _ group len i d k (fork x hp ha e) h =
    (refl, refl, omega (arith, d b a k ha), refl, refl, tt)
write_from-Describes c a best b _ group len i d k
      (longer {best' = best'} {b' = b'} {l = l} x hb hs br) h =
    (
      refl,
      refl,
      omega (arith, Branch-length c a best b (b' ∷ l) d k (longer x hb hs br)),
      refl,
      refl,
      write_from-Describes c a best' b' l group len (i + 1) d (at_id b.parent_id, hs) br
          (omega arith),
    )

-- For a side chain that is a branch, of a block that the node knows, on a chain whose numbers fall
-- by one from child to parent, one point is written for each block, in order: all in the group of
-- the side block's identifier, with the length of the chain, which is the distance of the side
-- block from the common ancestor, and each with its own distance from that ancestor as index.
pub write_forked_block-Describes :
    (c : Client) (a best side : Block) (l : List Block)
    → Descends c
    → IsKnown c side
    → Branch c a best (side ∷ l)
    → (side.number ≡ a.number + length (side ∷ l))
      × Describes side.id (length (side ∷ l)) a.number (side ∷ l) (write_forked_block (side ∷ l))
unfolding write_forked_block
write_forked_block-Describes c a best side l d k br = (
  Branch-length c a best side l d k br,
  write_from-Describes c a best side l side.id (length (side ∷ l)) 0 d k br (omega arith),
)

-- The operations behind the deletion, if any, write a side chain that was found.
abbrev Finishes : DbOp → Option (Result (List Block)) → List DbOp → Result (Unit {0}) → Type 0
Finishes deletion found ops r =
    (rest : List DbOp) × (ops ≡ deletion ∷ rest)
    × ((rest ≡ []) × ((e : Error) × (r ≡ err e))
        ⊎ ((blocks : List Block) × (found ≡ some (ok blocks))
            × (r ≡ ok tt)
            × (rest ≡ map write_fork (write_forked_block blocks))))

finish_resolve-Finishes :
    (deletion : DbOp) (found : Option (Result (List Block))) (ops : List DbOp)
    (r : Result (Unit {0}))
    → finish_resolve deletion found ≡ some (ops, r)
    → Finishes deletion found ops r
unfolding finish_resolve
finish_resolve-Finishes deletion none ops r h = cc
finish_resolve-Finishes deletion (some (err e)) ops r h = ([], cc, inl (refl, (e, cc)))
finish_resolve-Finishes deletion (some (ok blocks)) ops r h =
    (map write_fork (write_forked_block blocks), cc, inr (blocks, refl, cc, refl))

-- `Resolve` first deletes from one second after the finalized block to an hour from now, keeping the
-- points of forks and prices, whatever happens later. Then either it does nothing more and returns an
-- error, or the deletion succeeded, a side chain was found, exactly that chain's points are written in
-- order, and no error is returned.
resolve_order :
    (c : Client) (now : ℕ) (deleted : Result (Unit {0})) (best side finalized : Block) (fuel : ℕ)
    {ops : List DbOp} {r : Result (Unit {0})}
    → resolve c now deleted best side finalized fuel ≡ some (ops, r)
    → (rest : List DbOp) × (ops
        ≡ delete_between (finalized.timestamp + 1) (now + 3600) kept_measurements ∷ rest)
      × ((rest ≡ []) × ((e : Error) × (r ≡ err e))
          ⊎ ((blocks : List Block) × (get_side_chain c best side finalized fuel ≡ some (ok blocks))
              × (deleted ≡ ok tt)
              × (r ≡ ok tt)
              × (rest ≡ map write_fork (write_forked_block blocks))))
unfolding resolve
resolve_order c now (err e) best side finalized fuel {ops} {r} h =
    ([], cc, inl (refl, (wrapped "failed to delete points after finalized block" e, cc)))
resolve_order c now (ok t) best side finalized fuel {ops} {r} h =
    let (rest, e, which) =
      finish_resolve-Finishes _ (get_side_chain c best side finalized fuel) ops r h in
    (
      rest,
      e,
      elim which [
        | inl failed ↦ inl failed
        | inr (blocks, f, re, we) ↦ inr (blocks, f, refl, re, we)
      ],
    )
