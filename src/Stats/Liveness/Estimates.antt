-- ===== src/Stats/Liveness/Estimates.antt =====
-- The estimates and the panic of stats/liveness/liveness.go.
use thorflux.Base.{
  ℕ, ◌+◌, ◌*◌, ◌/◌, ◌%◌, ◌≤◌, ◌<◌, ◌≡◌, refl, ◌↔◌, ◌⊎◌, inl, inr, Bool, true, false, arith,
  Bool-cases, u32_mod, u32, sub32,
}
use native.Mathlib.Nat.{div-add-mod', mod-lt, div-eq_of_eq-mul_right}
use thorflux.Chain.{Block, ok, err, Error, Revision, Client, Result-cases}
use thorflux.Types.{Event}
use thorflux.Stats.Outcome.{done, panicked, ◌>>=◌}
use thorflux.Stats.Liveness.{
  LivenessPoint, current_epoch_of, liveness_point, estimated, with_finalized, write,
}

-- The writer of the liveness panics exactly where the block is recent, the node gives a finalized
-- block, and gives none that is justified.
pub write-panics_where :
    (epoch_length : ℕ) (client : Client) (is_recent : Bool) (ev : Event)
    → (write epoch_length client is_recent ev ≡ panicked) ↔ (
        (is_recent ≡ true)
        × ((b : Block) × (client.expanded_block Revision.finalized ≡ ok b))
        × ((e : Error) × (client.expanded_block Revision.justified ≡ err e)))
unfolding write with_finalized ◌>>=◌
write-panics_where epoch_length client false ev = ((λ e. cc), (λ h. cc (h.0)))
write-panics_where epoch_length client true ev =
    elim (Result-cases (client.expanded_block Revision.finalized)) [
      | inr (x, f) ↦ ((λ e. cc (simp f at e)), (λ (r, (b, g), j). cc))
      | inl (b, f) ↦ elim (Result-cases (client.expanded_block Revision.justified)) [
        | inl (c, j) ↦ ((λ e. cc (simp (f, j) at e)), (λ (r, g, (x, k)). cc))
        | inr (x, j) ↦ ((λ e. (refl, (b, f), (x, j))), (λ h. simp (f, j) refl))
      ]
    ]

-- Where the block is not recent or the node gives no finalized block, and the block's number and three
-- epochs are uint32 values: the finality is estimated. The liveness that is written is two epochs,
-- for every block; the epoch that is written is the block's, the current epoch is the number of its
-- first block, and the finalized and the justified block that are written are two epochs and one epoch
-- before that, unless the chain is shorter: in its first two epochs the finalized block that is written
-- has a greater number than the block itself.
pub write-estimates :
    (epoch_length : ℕ) (client : Client) (is_recent : Bool) (ev : Event)
    → 0 < epoch_length
    → epoch_length * 3 < u32_mod
    → ev.block.number < u32_mod
    → (is_recent ≡ false) ⊎ ((e : Error) × (client.expanded_block Revision.finalized ≡ err e))
    → (p : LivenessPoint) × (write epoch_length client is_recent ev ≡ done p)
      × (p.liveness ≡ 2)
      × (p.current_block ≡ ev.block.number)
      × (p.current_epoch ≡ p.epoch * epoch_length)
      × (p.current_epoch ≤ ev.block.number)
      × (ev.block.number < p.current_epoch + epoch_length)
      × ((epoch_length * 2 ≤ p.current_epoch)
          → (p.finalized + epoch_length * 2 ≡ p.current_epoch)
            × (p.justified_block + epoch_length ≡ p.current_epoch))
      × ((p.current_epoch < epoch_length * 2) → ev.block.number < p.finalized)
unfolding write estimated liveness_point
write-estimates epoch_length client is_recent ev pos fits number cause =
    let start = ev.block.number / epoch_length * epoch_length in
    let parts : start + ev.block.number % epoch_length ≡ ev.block.number =
      div-add-mod' ev.block.number epoch_length in
    let small : ev.block.number % epoch_length < epoch_length = mod-lt ev.block.number pos in
    let current : current_epoch_of epoch_length ev.block.number ≡ start =
      unfold current_epoch_of in omega arith in
    let back : sub32 start (sub32 start (u32 (epoch_length * 2))) ≡ epoch_length * 2 =
      omega arith in
    let two : epoch_length * 2 / epoch_length ≡ 2 = div-eq_of_eq-mul_right pos refl in
    (
      estimated epoch_length ev,
      written cause,
      rw (current, back) two,
      refl,
      current,
      rw current (omega arith),
      rw current (omega arith),
      rw current (λ h. (omega arith, omega arith)),
      rw current (λ h. omega arith),
    )
  where
    written :
        (is_recent ≡ false) ⊎ ((e : Error) × (client.expanded_block Revision.finalized ≡ err e))
        → write epoch_length client is_recent ev ≡ done (estimated epoch_length ev)
    written (inl old) = rw old refl
    written (inr (e, unknown)) = elim (Bool-cases is_recent) [
      | inl r ↦ rw r (unfold with_finalized in rw unknown refl)
      | inr r ↦ rw r refl
    ]
