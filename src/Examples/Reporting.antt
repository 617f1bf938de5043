-- ===== src/Examples/Reporting.antt =====
-- The theorems on the points of a block and of the liveness.
use thorflux.Base.{◌+◌, ◌*◌, ◌≤◌, ◌<◌, ◌≡◌, refl, ◌↔◌, inl, true, false, none, arith}
use thorflux.Chain.{Result, Block, ok, err, Error, not_found, Revision, Client}
use thorflux.Types.{Event}
use thorflux.Stats.Outcome.{done, panicked, ◌>>=◌}
use thorflux.Stats.Blocks.{block_point, fee_fields, write_blockstats}
use thorflux.Stats.Liveness.{LivenessPoint}
use thorflux.Stats.Liveness as Liveness
use thorflux.Stats.Liveness.Estimates.{write-panics_where, write-estimates}
use thorflux.Examples.Data.{block_of, root}
use thorflux.Examples.Writing.{event_at}

-- Block 7 behind block 3, with an interval of ten seconds.
abbrev seven : Event
seven = event_at (block_of 7 107 106)

test-write_blockstats : write_blockstats 10 seven ≡ done (block_point 10 seven none)
unfolding write_blockstats fee_fields ◌>>=◌
test-write_blockstats = refl

-- A node that knows a finalized block only.
abbrev answer : Revision → Result Block
answer Revision.finalized = ok root
answer Revision.best = err not_found
answer Revision.justified = err not_found
answer (Revision.at_number n) = err not_found
answer (Revision.at_id id) = err not_found

abbrev finalizing : Client
finalizing = record { expanded_block = answer }

write-panics_where_example : (Liveness.write 180 finalizing true seven ≡ panicked) ↔ (
    (true ≡ true)
    × ((b : Block) × (finalizing.expanded_block Revision.finalized ≡ ok b))
    × ((e : Error) × (finalizing.expanded_block Revision.justified ≡ err e)))
write-panics_where_example = write-panics_where 180 finalizing true seven

write-estimates_example :
    (p : LivenessPoint) × (Liveness.write 180 finalizing false seven ≡ done p)
    × (p.liveness ≡ 2)
    × (p.current_block ≡ 7)
    × (p.current_epoch ≡ p.epoch * 180)
    × (p.current_epoch ≤ 7)
    × (7 < p.current_epoch + 180)
    × ((180 * 2 ≤ p.current_epoch)
        → (p.finalized + 180 * 2 ≡ p.current_epoch) × (p.justified_block + 180 ≡ p.current_epoch))
    × ((p.current_epoch < 180 * 2) → 7 < p.finalized)
write-estimates_example =
    write-estimates 180 finalizing false seven (omega arith) (omega arith) (omega arith) (inl refl)
