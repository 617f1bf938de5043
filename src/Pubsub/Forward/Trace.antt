-- ===== src/Pubsub/Forward/Trace.antt =====
-- What the forward syncer of pubsub/forward_syncer.go sends.
use thorflux.Base.{
  ℕ, ◌≡◌, refl, subst, ◌≢◌, inl, inr, Bool, true, false, Option, none, some, List, [], ◌∷◌, arith,
  ltb, ◌==◌, Bool-cases, All,
}
use thorflux.Chain.{Block, Result, ok, err}
use thorflux.Pubsub.Events.{BlockEvent}
use thorflux.Pubsub.Forward.{
  Answers, Ending, continued, returned, exited, asking, Outcome, first_ok, fork_event, send_fork,
  send_block, with_next, forward_step, push_sent, end_round, forward_run, database_ahead,
}

-- In a round, the block that `ProcessBlock` fetches for the next number is the one that was seen: the
-- chain does not change in between, and the fetcher's cache does not hold an older block.
abbrev pub Agrees : Answers → Type 0
Agrees a = (b : Block) (ev : BlockEvent) → a.next ≡ ok b → a.processed ≡ ok ev → ev.block ≡ b

-- `Follows prev sent last`: the events sent while `prev` moves from the first block to the last. The
-- block of a block event is a child of `prev` and becomes `prev`; a fork event is sent where the next
-- block is no child of `prev`, reports `prev` as the side chain, and leaves the finalized block.
pub data Follows : Block → List BlockEvent → Block → Type 0 where
  stop : {prev : Block} → Follows prev [] prev
  child :
      {prev last : Block} (ev : BlockEvent) {sent : List BlockEvent}
      → ev.block.parent_id ≡ prev.id
      → Follows ev.block sent last
      → Follows prev (ev ∷ sent) last
  forked :
      {prev last : Block} (next finalized : Block) {sent : List BlockEvent}
      → next.parent_id ≢ prev.id
      → Follows finalized sent last
      → Follows prev (fork_event next prev finalized ∷ sent) last

-- One round: `Moves prev ev mid`.
data Moves (prev : Block) : Option BlockEvent → Block → Type 0 where
  stays : Moves prev none prev
  to_child : (ev : BlockEvent) → ev.block.parent_id ≡ prev.id → Moves prev (some ev) ev.block
  to_finalized :
      (next finalized : Block)
      → next.parent_id ≢ prev.id
      → Moves prev (some (fork_event next prev finalized)) finalized

abbrev Steps : Block → Outcome → Type 0
Steps prev o = Moves prev o.0 o.1

send_block-Steps :
    (next prev : Block) (d : Bool) (r : Result BlockEvent)
    → next.parent_id ≡ prev.id
    → ((ev : BlockEvent) → r ≡ ok ev → ev.block ≡ next)
    → Steps prev (send_block next prev d r)
unfolding send_block
send_block-Steps next prev d (err e) h same = stays
send_block-Steps next prev true (ok ev) h same = stays
send_block-Steps next prev false (ok ev) h same =
    subst (Moves prev (some ev)) (same ev refl) (to_child ev (rw (same ev refl) h))

send_fork-Steps :
    (next prev : Block) (o : Option Block)
    → next.parent_id ≢ prev.id
    → Steps prev (send_fork next prev o)
unfolding send_fork
send_fork-Steps next prev none h = stays
send_fork-Steps next prev (some finalized) h = to_finalized next finalized h

with_next-Steps :
    (a : Answers) (prev : Block) (r : Result Block)
    → ((b : Block) (ev : BlockEvent) → r ≡ ok b → a.processed ≡ ok ev → ev.block ≡ b)
    → Steps prev (with_next a prev r)
unfolding with_next
with_next-Steps a prev (err e) same =
    elim (Bool-cases (database_ahead prev.number e a.best_number)) [
      | inl h ↦ rw h stays
      | inr h ↦ rw h stays
    ]
with_next-Steps a prev (ok next) same = elim (Bool-cases (next.parent_id == prev.id)) [
  | inl h ↦ rw h (
      send_block-Steps next prev a.done_sending a.processed (ground arith)
        λ ev e. same next ev refl e)
  | inr h ↦ rw h (send_fork-Steps next prev (first_ok a.finalized_tries) (ground arith))
]

forward_step-Steps :
    (interval : ℕ) (a : Answers) (prev : Block)
    → Agrees a
    → Steps prev (forward_step interval a prev)
unfolding forward_step
forward_step-Steps interval a prev same = elim (Bool-cases a.done) [
  | inl h ↦ rw h stays
  | inr h ↦ elim (Bool-cases (ltb a.since_prev interval)) [
    | inl w ↦ rw (h, w) stays
    | inr w ↦ rw (h, w) (with_next-Steps a prev a.next same)
  ]
]

Follows-push :
    (prev mid last : Block) (ev : Option BlockEvent) (sent : List BlockEvent)
    → Moves prev ev mid
    → Follows mid sent last
    → Follows prev (push_sent ev sent) last
Follows-push prev _ last _ sent stays f = f
Follows-push prev _ last _ sent (to_child ev h) f = child ev h f
Follows-push prev _ last _ sent (to_finalized next finalized h) f = forked next finalized h f

after_step-Follows :
    (prev mid last : Block) (ev : Option BlockEvent) (sent : List BlockEvent) (ending : Ending)
    → Moves prev ev mid
    → Follows mid sent last
    → let out = end_round ev mid sent last ending in Follows prev out.0 out.1
after_step-Follows prev mid last ev sent continued m f = Follows-push prev mid last ev sent m f
after_step-Follows prev mid last ev sent returned m f = Follows-push prev mid mid ev [] m stop
after_step-Follows prev mid last ev sent exited m f = Follows-push prev mid mid ev [] m stop
after_step-Follows prev mid last ev sent asking m f = Follows-push prev mid mid ev [] m stop

-- In every run whose rounds process the block that they saw, the events follow the chain: each block
-- event is for a child of the block before it, each fork event is sent where the next block is no child
-- of the block before, and the run goes on from the finalized block.
pub forward_run-Follows :
    (interval : ℕ) (rounds : List Answers) (prev : Block)
    → All Agrees rounds
    → Follows prev (forward_run interval rounds prev).0 (forward_run interval rounds prev).1
unfolding forward_run
forward_run-Follows interval [] prev same = stop
forward_run-Follows interval (a ∷ rest) prev same =
    let (ev, mid, ending) = forward_step interval a prev in
    let (sent, last) = forward_run interval rest mid in
    after_step-Follows prev mid last ev sent ending (forward_step-Steps interval a prev same.0)
      (forward_run-Follows interval rest mid same.1)
