-- ===== src/Pubsub/Forks/Branch.antt =====
-- What `getSideChain` of pubsub/fork_handler.go finds, against an independent description of a branch.
use thorflux.Base.{
  ℕ, zero, suc, ◌≤◌, ◌≡◌, ◌∙◌, ◌≢◌, ◌⊎◌, inl, inr, some, List, [], ◌∷◌, ◌++◌, arith, ltb, ◌==◌,
  Bool-cases,
}
use thorflux.Chain.{Result-cases, Block, ok, err, at_number, at_id, Client}
use thorflux.Pubsub.Forks.{
  compare_parents, fetch_side, next_round, Round, stopped, joined, reached_finalized, go_on,
  reduce_to, round, side_loop, from_height, get_side_chain,
}
use mathlib.Core.List.{append_assoc, append-nil}

-- `IsParent c p b`: the node answers the parent of `b` with `p`.
abbrev pub IsParent : Client → Block → Block → Type 0
IsParent c p b = c.expanded_block (at_id b.parent_id) ≡ ok p

-- `Branch c a best l`: `l` descends from a block that is not `best` by parents, block by block beside
-- the chain of `best`, and its last block and the block of that chain beside it share the parent `a`.
pub data Branch (c : Client) (a : Block) : Block → List Block → Type 0 where
  fork :
      {best b p : Block}
      → best.id ≢ b.id
      → IsParent c p best
      → IsParent c a b
      → a.id ≡ p.id
      → Branch c a best (b ∷ [])
  longer :
      {best b best' b' : Block} {l : List Block}
      → best.id ≢ b.id
      → IsParent c best' best
      → IsParent c b' b
      → Branch c a best' (b' ∷ l)
      → Branch c a best (b ∷ b' ∷ l)

-- What a round says of the two parents.
abbrev pub RoundMeans : Client → ℕ → Block → Block → Round → Type 0
RoundMeans c f best prev (stopped e) = Unit
RoundMeans c f best prev joined =
    (p : Block) × (a : Block) × IsParent c p best × IsParent c a prev × (a.id ≡ p.id)
RoundMeans c f best prev reached_finalized = (a : Block) × IsParent c a prev × (a.number ≡ f)
RoundMeans c f best prev (go_on best' side) =
    IsParent c best' best × IsParent c side prev × (best'.id ≢ side.id) × (side.number ≢ f)

compare_means :
    (c : Client) (f : ℕ) (best prev best' side : Block)
    → IsParent c best' best
    → IsParent c side prev
    → RoundMeans c f best prev (compare_parents f best' side)
unfolding compare_parents
compare_means c f best prev best' side hb hs = elim (Bool-cases (side.id == best'.id)) [
  | inl same ↦ rw same (best', side, hb, hs, ground arith)
  | inr differ ↦ elim (Bool-cases (side.number == f)) [
    | inl end ↦ rw (differ, end) (side, hs, ground arith)
    | inr above ↦ rw (differ, above) (hb, hs, ground arith, ground arith)
  ]
]

fetch_means :
    (c : Client) (f : ℕ) (best prev best' : Block)
    → IsParent c best' best
    → RoundMeans c f best prev (fetch_side c f best' prev)
unfolding fetch_side
fetch_means c f best prev best' hb = elim (Result-cases (c.expanded_block (at_id prev.parent_id))) [
  | inl (side, hs) ↦ rw (hs, fetch_side) (compare_means c f best prev best' side hb hs)
  | inr (e, hs) ↦ rw (hs, fetch_side) tt
]

pub round_means :
    (c : Client) (f : ℕ) (best prev : Block) → RoundMeans c f best prev (round c f best prev)
unfolding round
round_means c f best prev = elim (Result-cases (c.expanded_block (at_id best.parent_id))) [
  | inl (best', hb) ↦ rw (hb, round) (fetch_means c f best prev best' hb)
  | inr (e, hb) ↦ rw (hb, round) tt
]

-- A branch that starts at `prev`, whose blocks after `prev` were appended to `acc`.
abbrev Extends : Client → Block → Block → List Block → List Block → Type 0
Extends c best prev acc out =
    (l : List Block) × (a : Block) × Branch c a best (prev ∷ l) × (out ≡ acc ++ l)

next_round-Extends :
    (c : Client) (f fuel : ℕ) (best prev : Block) (acc out : List Block) (r : Round)
    → RoundMeans c f best prev r
    → best.id ≢ prev.id
    → ((best' side : Block)
        → best'.id ≢ side.id
        → side_loop c f fuel best' side (acc ++ side ∷ []) ≡ some (ok out)
        → Extends c best' side (acc ++ side ∷ []) out)
    → next_round (λ best' side. side_loop c f fuel best' side (acc ++ side ∷ [])) acc r
      ≡ some (ok out)
    → Extends c best prev acc out
unfolding next_round
next_round-Extends c f fuel best prev acc out (stopped e) m d ih h = cc
next_round-Extends c f fuel best prev acc out joined (p, a, hp, ha, e) d ih h =
    ([], a, fork d hp ha e, rw append-nil (cc))
next_round-Extends c f fuel best prev acc out reached_finalized m d ih h = cc
next_round-Extends c f fuel best prev acc out (go_on best' side) (hb, hs, d', _) d ih h =
    let (l, a, branch, e) = ih best' side d' h in
    (side ∷ l, a, longer d hb hs branch, e ∙ append_assoc acc (side ∷ []) l)

side_loop-Extends :
    (c : Client) (f fuel : ℕ) (best prev : Block) (acc out : List Block)
    → best.id ≢ prev.id
    → side_loop c f fuel best prev acc ≡ some (ok out)
    → Extends c best prev acc out
unfolding side_loop
side_loop-Extends c f zero best prev acc out d h = cc
side_loop-Extends c f (suc fuel) best prev acc out d h =
    next_round-Extends c f fuel best prev acc out (round c f best prev) (round_means c f best prev)
      d (λ best' side d' h'. side_loop-Extends c f fuel best' side (acc ++ side ∷ []) out d' h') h

pub reduce_to-eq_min :
    (best_num side_num : ℕ) → side_num ≤ best_num → reduce_to best_num side_num ≡ side_num
unfolding reduce_to
reduce_to-eq_min zero side_num h = omega arith
reduce_to-eq_min (suc n) side_num h = ground (arith, reduce_to-eq_min n side_num)

from_height_sound :
    (c : Client) (side : Block) (f fuel : ℕ) (b : Block) (out : List Block)
    → from_height c side f fuel b ≡ some (ok out)
    → ((b.id ≡ side.id) × (out ≡ []))
      ⊎ ((l : List Block) × (a : Block) × (out ≡ side ∷ l) × Branch c a b (side ∷ l))
unfolding from_height
from_height_sound c side f fuel b out h = elim (Bool-cases (b.id == side.id)) [
  | inl same ↦ inl (ground arith, ground arith)
  | inr differ ↦
      let (l, a, branch, e) =
        side_loop-Extends c f fuel b side (side ∷ []) out (ground arith)
          (rw (differ, from_height) at h) in
      inr (l, a, e, branch)
]

-- A side chain that is found is a branch: either the best chain has the side block itself at its
-- height and the result is empty, or the result is the chain of the side block, of which no block
-- equals the best chain's at its side, down to the child of an ancestor that the two chains share.
pub get_side_chain_sound :
    (c : Client) (best side finalized : Block) (fuel : ℕ) (out : List Block)
    → get_side_chain c best side finalized fuel ≡ some (ok out)
    → (b : Block) × (c.expanded_block (at_number side.number) ≡ ok b)
      × (((b.id ≡ side.id) × (out ≡ []))
          ⊎ ((l : List Block) × (a : Block) × (out ≡ side ∷ l) × Branch c a b (side ∷ l)))
unfolding get_side_chain
get_side_chain_sound c best side finalized fuel out h =
    elim (Bool-cases (ltb best.number side.number)) [
      | inl above ↦ absurd (ground arith)
      | inr below ↦
          let m = reduce_to-eq_min best.number side.number (ground arith) in
          elim (Result-cases (c.expanded_block (at_number side.number))) [
            | inl (b, e) ↦ (
              b,
              e,
              from_height_sound c side finalized.number fuel b out
                  (rw (below, m, e, get_side_chain) at h),
            )
            | inr (x, e) ↦
                let h' : some (err x) ≡ some (ok out) = rw (below, m, e, get_side_chain) at h in
                absurd (cc)
          ]
    ]
