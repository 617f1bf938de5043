-- ===== src/Pubsub/Forks/Total.antt =====
-- The walk of pubsub/fork_handler.go ends, and finds every branch that lies above the finalized block.
use thorflux.Base.{
  ℕ, zero, suc, ◌≤◌, ◌<◌, ◌≡◌, ap, ◌∙◌, ◌≢◌, inl, inr, none, some, List, [], ◌∷◌, ◌++◌, arith,
  length, All,
}
use thorflux.Chain.{Result-cases, Block, ok, Revision, at_number, at_id, Client}
use thorflux.Pubsub.Forks.{
  Round, stopped, joined, reached_finalized, go_on, reduce_to, round, next_round, side_loop,
  from_height, get_side_chain,
}
use thorflux.Pubsub.Forks.Branch.{
  IsParent, Branch, fork, longer, RoundMeans, round_means, reduce_to-eq_min,
}
use mathlib.Core.List.{append_assoc, append-nil}

-- A block that the node answers some request with.
abbrev pub IsKnown : Client → Block → Type 0
IsKnown c b = (r : Revision) × (c.expanded_block r ≡ ok b)

-- A block's number is one above its parent's.
abbrev pub Descends : Client → Type 0
Descends c = (b p : Block) → IsKnown c b → IsParent c p b → b.number ≡ suc p.number

next_round_total :
    (c : Client) (f fuel : ℕ) (best prev : Block) (acc : List Block) (r : Round)
    → RoundMeans c f best prev r
    → ((best' side : Block)
        → IsParent c side prev
        → side_loop c f fuel best' side (acc ++ side ∷ []) ≢ none)
    → next_round (λ best' side. side_loop c f fuel best' side (acc ++ side ∷ [])) acc r ≢ none
unfolding next_round
next_round_total c f fuel best prev acc (stopped e) m ih h = cc
next_round_total c f fuel best prev acc joined m ih h = cc
next_round_total c f fuel best prev acc reached_finalized m ih h = cc
next_round_total c f fuel best prev acc (go_on best' side) m ih h = ih best' side m.1 h

side_loop_total :
    (c : Client) (f fuel : ℕ) (best prev : Block) (acc : List Block)
    → Descends c
    → IsKnown c prev
    → prev.number < fuel
    → side_loop c f fuel best prev acc ≢ none
unfolding side_loop
side_loop_total c f zero best prev acc d k lt = absurd (omega arith)
side_loop_total c f (suc fuel) best prev acc d k lt =
    next_round_total c f fuel best prev acc (round c f best prev) (round_means c f best prev)
      λ best' side hs.
        side_loop_total c f fuel best' side (acc ++ side ∷ []) d (at_id prev.parent_id, hs)
          (omega (arith, d prev side k hs))

from_height_total :
    (c : Client) (side : Block) (f : ℕ) (b : Block)
    → Descends c
    → IsKnown c side
    → from_height c side f (suc side.number) b ≢ none
unfolding from_height
from_height_total c side f b d k =
    ground (arith, side_loop_total c f (suc side.number) b side (side ∷ []) d k (omega arith))

-- On a chain whose numbers fall by one from child to parent, the walk from a block that the node
-- knows always ends: as many rounds as the side block's number, and one more, are enough.
pub get_side_chain_total :
    (c : Client) (best side finalized : Block)
    → Descends c
    → IsKnown c side
    → get_side_chain c best side finalized (suc side.number) ≢ none
unfolding get_side_chain
get_side_chain_total c best side finalized d k =
    elim (Result-cases (c.expanded_block (at_number (reduce_to best.number side.number)))) [
      | inl (b, e) ↦ ground (arith, e, from_height_total c side finalized.number b d k)
      | inr (x, e) ↦ ground (arith, e)
    ]

round-joined :
    (c : Client) (f : ℕ) (best prev : Block) {p a : Block}
    → IsParent c p best
    → IsParent c a prev
    → a.id ≡ p.id
    → round c f best prev ≡ joined
unfolding round
round-joined c f best prev hp ha e = ground arith

round-go_on :
    (c : Client) (f : ℕ) (best prev : Block) {best' side : Block}
    → IsParent c best' best
    → IsParent c side prev
    → best'.id ≢ side.id
    → side.number ≢ f
    → round c f best prev ≡ go_on best' side
unfolding round
round-go_on c f hp ha d n = ground arith

Branch-differ :
    {c : Client} {a best b : Block} {l : List Block} → Branch c a best (b ∷ l) → best.id ≢ b.id
Branch-differ (fork d _ _ _) = d
Branch-differ (longer d _ _ _) = d

side_loop_complete :
    (c : Client) (f fuel : ℕ) (a best prev : Block) (acc l : List Block)
    → Branch c a best (prev ∷ l)
    → All (λ b. b.number ≢ f) l
    → length l < fuel
    → side_loop c f fuel best prev acc ≡ some (ok (acc ++ l))
unfolding side_loop
side_loop_complete c f zero a best prev acc l br above lt = absurd (omega arith)
side_loop_complete c f (suc fuel) a best prev acc _ (fork d hp ha e) above lt =
    rw (round-joined c f best prev hp ha e, next_round, append-nil acc)
side_loop_complete c f (suc fuel) a best prev acc _
      (longer {best' = best'} {b' = b'} {l = l} d hb hs br) above lt =
    rw (round-go_on c f best prev hb hs (Branch-differ br) above.0, next_round)
      (side_loop_complete c f fuel a best' b' (acc ++ b' ∷ []) l br above.1 (omega arith)
        ∙ ap (λ x. some (ok x)) (append_assoc acc (b' ∷ []) l))

-- The other direction of what is found: if the side block is not above the best block, every
-- branch of it beside the best chain's block of its height, of which no block but the first has
-- the finalized block's number, is the result, with at least as much fuel as it has blocks.
pub get_side_chain_complete :
    (c : Client) (best side finalized b a : Block) (l : List Block) (fuel : ℕ)
    → side.number ≤ best.number
    → c.expanded_block (at_number side.number) ≡ ok b
    → Branch c a b (side ∷ l)
    → All (λ x. x.number ≢ finalized.number) l
    → length l < fuel
    → get_side_chain c best side finalized fuel ≡ some (ok (side ∷ l))
unfolding get_side_chain
get_side_chain_complete c best side finalized b a l fuel le e br above lt =
    rw (reduce_to-eq_min best.number side.number le, e, get_side_chain)
      (ground (
        arith,
        Branch-differ br,
        side_loop_complete c finalized.number fuel a b side (side ∷ []) l br above lt,
      ))
