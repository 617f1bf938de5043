-- ===== src/Stats/Authority/Reset.antt =====
-- When stats/authority/list.go fetches its candidates again.
use thorflux.Base.{
  ℕ, ◌≤◌, ◌≡◌, refl, ◌↔◌, inl, inr, true, false, Option, none, some, List, ◌∷◌, arith, Bool-cases,
}
use thorflux.Chain.{Block}
use thorflux.Types.{Event}
use thorflux.Stats.Authority.{
  Candidate, CandidateList, Builtins, Answers, has_event, has_endorsor_event, should_reset,
  refresh_owners_list, shuffled, is_empty,
}
use thorflux.Stats.Authority.Points.{Constants, write_slots, refresh_after, write}

-- With candidates at hand, the list is fetched again exactly for a block from the update block on that
-- holds no event of the Authority contract and does hold an event of the Params contract or a transfer
-- from or to a candidate.
should_reset_iff :
    (b : Builtins) (l : CandidateList) (block : Block) (c : Candidate) (cs : List Candidate)
    → l.candidates ≡ c ∷ cs
    → (should_reset b l block ≡ true) ↔ (
        (l.update_block ≤ block.number)
        × (has_event b.authority block.transactions ≡ false)
        × (has_endorsor_event b l.candidates block.transactions ≡ true))
unfolding should_reset
should_reset_iff b l block c cs e = ground (arith, e)

refresh_after-kept :
    (k : Constants) (b : Builtins) (a : Answers) (block : Block) (l : CandidateList) (c : Candidate)
    (cs : List Candidate)
    → l.candidates ≡ c ∷ cs
    → has_event b.authority block.transactions ≡ true
    → (refresh_after k b a block l).candidates ≡ l.candidates
unfolding refresh_after refresh_owners_list
refresh_after-kept k b a block l c cs e h = ground (arith, e, h)

write_slots-kept :
    (k : Constants) (a : Answers) (hash : ℕ → ℕ) (l : CandidateList) (block : Block)
    (prev : Option Block) (c : Candidate) (cs : List Candidate)
    → l.candidates ≡ c ∷ cs
    → (write_slots k a hash l block prev).1 ≡ l
unfolding write_slots is_empty
write_slots-kept k a hash l block none c cs e = refl
write_slots-kept k a hash l block (some p) c cs e = rw (e, shuffled)

-- A block with an event of the Authority contract leaves known candidates as they are, if there
-- are any, so a change of the list that the contract reports is not seen.
pub write-authority_event :
    (k : Constants) (b : Builtins) (a : Answers) (hash : ℕ → ℕ) (l : CandidateList) (ev : Event)
    (c : Candidate) (cs : List Candidate)
    → l.candidates ≡ c ∷ cs
    → has_event b.authority ev.block.transactions ≡ true
    → (write k b a hash l ev).1.candidates ≡ l.candidates
unfolding write
write-authority_event k b a hash l ev c cs e h =
    let kept = write_slots-kept k a hash l ev.block ev.prev c cs e in
    elim (Bool-cases ev.hayabusa_status.active) [
      | inl on ↦ rw (on, write)
      | inr off ↦ rw (off, write, kept) (refresh_after-kept k b a ev.block l c cs e h)
    ]
