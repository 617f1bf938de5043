-- ===== src/Stats/Blocks/Gaps.antt =====
-- The missed slots that stats/blockstats/blocks.go counts.
use thorflux.Base.{
  ℕ, ◌+◌, ◌-◌, ◌*◌, ◌/◌, ◌%◌, ◌≤◌, ◌<◌, ◌≡◌, refl, sym, ap, ◌∙◌, ◌≢◌, ◌↔◌, inl, inr, none, some,
  List, [], ◌∷◌, arith, Option-cases, Any, u64_mod, u64, sub64,
}
use thorflux.Base.Int.{sub_ℕ}
use thorflux.Chain.{Block, Tx}
use thorflux.Types.{Event}
use native.Mathlib.Nat.{div-add-mod', mod-lt}
use thorflux.Stats.Outcome.{>>=-eq-done, map-panicked, done, panicked, ◌>>=◌}
use thorflux.Stats.Blocks.{
  block_point, gap_to, missed_since, BlockPoint, total_tip_from, gap_to, missed_since, fee_fields,
  write_blockstats,
}

-- A transaction without a reward.
abbrev pub HasNoReward : Tx → Type 0
HasNoReward t = t.reward ≡ none

total_tip_from_panics :
    (total : ℕ) (txs : List Tx) → (total_tip_from total txs ≡ panicked) ↔ Any HasNoReward txs
unfolding total_tip_from ◌>>=◌
total_tip_from_panics total [] = ((λ e. cc), (λ a. elim a [ ]))
total_tip_from_panics total (t ∷ txs) = elim (Option-cases t.reward) [
  | inl absent ↦ ((λ e. inl absent), (λ a. simp absent refl))
  | inr (reward, present) ↦
      let (there, back) = total_tip_from_panics (total + reward) txs in
      ((λ e. inr (there (simp present at e))), (λ a. simp present (back (later present a))))
]
  where
    later : {r : ℕ} → t.reward ≡ some r → Any HasNoReward (t ∷ txs) → Any HasNoReward txs
    later present (inl absent) = cc
    later present (inr a) = a

-- The writer of the block statistics panics exactly where the block has a base fee and a transaction
-- without a reward.
write_blockstats-panics_iff :
    (interval : ℕ) (ev : Event)
    → (write_blockstats interval ev ≡ panicked)
      ↔ ((ev.block.base_fee ≢ none) × Any HasNoReward ev.block.transactions)
unfolding write_blockstats fee_fields
write_blockstats-panics_iff interval ev =
    let (out, back_out) =
      map-panicked (fee_fields ev.block ev.block.base_fee) (block_point interval ev) in
    elim (Option-cases ev.block.base_fee) [
      | inl absent ↦ ((λ e. cc (simp absent at (out e))), (λ (h, a). absurd (h absent)))
      | inr (fee, present) ↦
          let (there, back) = total_tip_from_panics 0 ev.block.transactions in
          let (tip, back_tip) = map-panicked (total_tip_from 0 ev.block.transactions) _ in
          (
            (λ e. ((λ n. cc), there (tip (simp present at (out e))))),
            (λ (h, a). back_out (simp present (back_tip (back a)))),
          )
    ]

-- If the block is later than the previous one, and nothing wraps: the number m of missed slots is such
-- that the gap is more than m intervals and at most m + 1, and the mine gap is what the gap has
-- beyond one interval, in intervals.
write_blockstats-missed :
    (interval : ℕ) (ev : Event) (prev : Block) (p : BlockPoint)
    → ev.prev ≡ some prev
    → 0 < interval
    → prev.timestamp < ev.block.timestamp
    → ev.block.timestamp + interval < u64_mod
    → write_blockstats interval ev ≡ done p
    → (m : ℕ) × (p.recent_missed_slots ≡ some m)
      × (prev.timestamp + m * interval < ev.block.timestamp)
      × (ev.block.timestamp ≤ prev.timestamp + (m + 1) * interval)
      × (p.block_mine_gap ≡ (sub_ℕ (ev.block.timestamp - prev.timestamp) interval, interval))
unfolding write_blockstats block_point gap_to missed_since
write_blockstats-missed interval ev prev p before pos later fits made =
    let (fees, found, same) = >>=-eq-done _ _ made in
    let gap = ev.block.timestamp - prev.timestamp in
    let exact : sub64 ev.block.timestamp prev.timestamp ≡ gap = omega arith in
    let top = gap + (interval - 1) in
    let slots = top / interval in
    let parts : slots * interval + top % interval ≡ top = div-add-mod' top interval in
    let small : top % interval < interval = mod-lt top pos in
    let some_slot : 0 < slots = grind arith in
    let product : slots * interval ≡ (slots - 1) * interval + interval = grind arith in
    let again : (slots - 1 + 1) * interval ≡ slots * interval =
      ap (λ n. n * interval) (omega arith) in
    let whole : u64 top ≡ top = omega arith in
    let counted : sub64 (u64 (sub64 ev.block.timestamp prev.timestamp + (interval - 1)) / interval)
          1
        ≡ slots - 1 =
      rw (exact, whole) (omega arith) in
    let point : block_point interval ev fees ≡ p = cc in
    (
      slots - 1,
      ap (λ (q : BlockPoint). q.recent_missed_slots) (sym point) ∙ simp before (ap some counted),
      omega arith,
      omega arith,
      ap (λ (q : BlockPoint). q.block_mine_gap) (sym point)
          ∙ simp before (ap (λ n. (sub_ℕ n interval, interval)) exact),
    )
