-- ===== src/Stats/Pos/Written/Missing.antt =====
-- `Write` of stats/pos/writer.go without staker information.
use thorflux.Base.{◌≡◌, refl, ◌≢◌, ◌⊎◌, inl, inr, true, none, some, [], Bool-cases, Option-cases}
use thorflux.Chain.{Error}
use thorflux.Types.{StakerInformation, Event}
use thorflux.Stats.Outcome.{Outcome, done, failed, panicked, ◌>>=◌}
use thorflux.Stats.Pos.Energy.{create_energy_stats, with_parent}
use thorflux.Stats.Pos.Individual.{create_single_validator_stats}
use thorflux.Stats.Pos.Written.{
  Writer, keep_parent, with_fetched, write_points, fetch_parent, with_staker, write,
}

write_points_lem :
    {F : Type 0} (w : Writer F) (ev : Event) (info staker : StakerInformation)
    → ev.hayabusa_status.active ≡ true
    → ev.parent_staker ≡ none
    → ev.staker ≡ some staker
    → write_points w ev info ≡ panicked
unfolding write_points create_single_validator_stats create_energy_stats with_parent ◌>>=◌
write_points_lem w ev info staker active parent present =
    simp present (simp active (simp parent refl))

-- If both Hayabusa forks are there and the parent block's staker information is neither given nor to be
-- fetched, and the block's own is given or fetched, then Write panics.
pub write-panicked :
    {F : Type 0} (w : Writer F) (ev : Event) (info : StakerInformation) (e : Error)
    → ev.hayabusa_status.forked ≡ true
    → ev.hayabusa_status.active ≡ true
    → ev.parent_staker ≡ none
    → w.fetch_validations ev.block.parent_id ≡ failed e
    → (ev.staker ≡ some info) ⊎ ((ev.staker ≡ none) × (w.fetch_validations ev.block.id ≡ done info))
    → write w ev ≡ panicked
unfolding write fetch_parent keep_parent with_staker with_fetched ◌>>=◌
write-panicked w ev info e forked active parent unknown (inl present) =
    let rest = write_points_lem w ev info info active parent present in
    simp forked (simp parent (simp unknown (simp present rest)))
write-panicked w ev info e forked active parent unknown (inr (absent, fetched)) =
    let rest = write_points_lem w (record ev { staker = some info }) info info active parent refl in
    simp forked (simp parent (simp unknown (simp absent (simp fetched rest))))

-- If the block's own staker information is neither given nor to be fetched, Write returns no points,
-- unless the fetch of the parent's panics.
pub write_nothing :
    {F : Type 0} (w : Writer F) (ev : Event) (e : Error)
    → ev.staker ≡ none
    → w.fetch_validations ev.block.id ≡ failed e
    → w.fetch_validations ev.block.parent_id ≢ panicked
    → write w ev ≡ done []
unfolding write fetch_parent
write_nothing w ev e absent unknown calm = elim (Bool-cases ev.hayabusa_status.forked) [
  | inr early ↦ simp early refl
  | inl forked ↦ elim (Option-cases ev.parent_staker) [
    | inr (parent, h) ↦ simp forked (simp h (after ev absent unknown))
    | inl h ↦ simp forked (simp h (kept (w.fetch_validations ev.block.parent_id) calm))
  ]
]
  where
    after :
        (fetched : Event)
        → fetched.staker ≡ none
        → w.fetch_validations fetched.block.id ≡ failed e
        → (done fetched >>= (λ f. with_staker w f f.staker)) ≡ done []
    after fetched h k = unfold ◌>>=◌ with_staker with_fetched in simp h (simp k refl)

    kept :
        (o : Outcome StakerInformation)
        → o ≢ panicked
        → (keep_parent ev o >>= (λ f. with_staker w f f.staker)) ≡ done []
    kept (done parent) h =
        unfold keep_parent in after (record ev { parent_staker = some parent }) absent unknown
    kept (failed x) h = unfold keep_parent in after ev absent unknown
    kept panicked h = absurd (h refl)
