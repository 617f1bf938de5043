-- ===== src/Stats/Authority/SlotPoints.antt =====
-- The slots between two blocks in the points of stats/authority/list.go.
use thorflux.Base.{
  ℕ, zero, suc, ◌+◌, ◌-◌, ◌*◌, ◌/◌, ◌≤◌, ◌<◌, ◌≡◌, refl, ap, ◌∙◌, inl, inr, List, [], ◌∷◌, arith,
  ltb, Bool-cases, length, All, u64_mod, u64, sub64,
}
use thorflux.Chain.{Block}
use thorflux.Stats.Authority.{CandidateList}
use thorflux.Stats.Authority.Points.{
  Constants, RecentSlot, AggregatedSlots, slots_since, start_slot, slot_loop, empty_slots,
  aggregate, detailed_slot_window,
}
use native.Mathlib.Nat.{
  div-mul-le_self, lt-div-mul-add, mul-le-mul_right, le-mul_of_pos_right, le-div_iff_mul-le,
}

quotient_pos : (n interval : ℕ) → 0 < interval → interval ≤ n → 1 ≤ n / interval
quotient_pos n interval pos h = (le-div_iff_mul-le pos).1 (omega arith)

-- Between two blocks, the earlier one first, the number of slots is the quotient of their distance
-- by the interval, rounded up, if nothing wraps.
pub slots_since_bounds :
    (interval prev_time time : ℕ)
    → 0 < interval
    → prev_time < time
    → time + interval < u64_mod
    → let s = slots_since interval prev_time time in
      (1 ≤ s) × (time ≤ prev_time + s * interval) × (prev_time + s * interval < time + interval)
unfolding slots_since
slots_since_bounds interval prev_time time pos h fits =
    let n = (time - prev_time) + interval - 1 in
    let wrapped : sub64 (u64 (sub64 time prev_time + interval)) 1 ≡ n = omega arith in
    let below : n / interval * interval ≤ n = div-mul-le_self n interval in
    let above : n < n / interval * interval + interval = lt-div-mul-add pos in
    let positive : 1 ≤ n / interval = quotient_pos n interval pos (omega arith) in
    rw wrapped (positive, omega arith, omega arith)

-- What the aggregate adds up to.
abbrev pub sum_slots : List AggregatedSlots → ℕ
sum_slots [] = 0
sum_slots (p ∷ ps) = p.missed + p.filled + sum_slots ps

-- Each point of the loop is an empty slot, at a time from the previous block's on and before the
-- block's.
abbrev pub IsEmptySlot : (prev_time time : ℕ) → RecentSlot → Type 0
IsEmptySlot prev_time time r = (r.filled ≡ 0) × (prev_time ≤ r.time) × (r.time < time)

slot_loop-IsEmptySlot :
    (k : Constants) (l : CandidateList) (prev block : Block) (addresses : List ℕ)
    (slots rounds a proposer : ℕ)
    → 0 < slots
    → slots < u64_mod
    → a + rounds < slots
    → prev.timestamp + (slots - 1) * k.block_interval < block.timestamp
    → block.timestamp < u64_mod
    → (length (slot_loop k l prev block addresses slots rounds a proposer) ≡ rounds)
      × All
          (IsEmptySlot prev.timestamp block.timestamp)
          (slot_loop k l prev block addresses slots rounds a proposer)
unfolding slot_loop
slot_loop-IsEmptySlot k l prev block addresses slots zero a proposer pos fits h last small =
    (refl, tt)
slot_loop-IsEmptySlot k l prev block addresses slots (suc rounds) a proposer pos fits h last small =
    let within : a * k.block_interval ≤ (slots - 1) * k.block_interval =
      mul-le-mul_right k.block_interval (omega arith) in
    let later =
      slot_loop-IsEmptySlot k l prev block addresses slots rounds (a + 1) _ pos fits (omega arith)
        last small in
    (ap suc later.0, ((ground arith, omega arith, omega arith), later.1))

slots_since_small :
    (interval prev_time time : ℕ) → 0 < interval → slots_since interval prev_time time < u64_mod
unfolding slots_since
slots_since_small interval prev_time time pos =
    let n = sub64 (u64 (sub64 time prev_time + interval)) 1 in
    let below : n / interval * interval ≤ n = div-mul-le_self n interval in
    let grows : n / interval ≤ n / interval * interval = le-mul_of_pos_right (n / interval) pos in
    let bound : n < u64_mod = omega arith in omega arith

pred-mul : (s interval : ℕ) → 1 ≤ s → s * interval ≡ (s - 1) * interval + interval
pred-mul zero interval h = omega arith
pred-mul (suc s) interval h = grind arith

accounts :
    (k : Constants) (l : CandidateList) (prev block : Block) (addresses : List ℕ) (s : ℕ)
    → 1 ≤ s
    → s < u64_mod
    → prev.timestamp + (s - 1) * k.block_interval < block.timestamp
    → block.timestamp < u64_mod
    → All (IsEmptySlot prev.timestamp block.timestamp) (empty_slots k l prev block addresses s)
      × (length (empty_slots k l prev block addresses s) + sum_slots (aggregate prev s) ≡ s - 1)
unfolding empty_slots aggregate start_slot
accounts k l prev block addresses s pos small last fits =
    let loop =
      slot_loop-IsEmptySlot k l prev block addresses s (sub64 s 1 - start_slot s) (start_slot s)
        block.signer pos small (ground arith) last fits in
    (
      loop.1,
      elim (Bool-cases (ltb detailed_slot_window s)) [
        | inl h ↦ ap (λ n. n + sum_slots (aggregate prev s)) loop.0 ∙ rw h (ground arith)
        | inr h ↦ ap (λ n. n + sum_slots (aggregate prev s)) loop.0 ∙ rw h (ground arith)
      ],
    )

-- If a block lies s slots behind its predecessor and nothing wraps, the s - 1 slots in between are
-- all accounted for by the points of single slots and the sum of the aggregate, which also counts
-- the previous block as filled. Each single point is empty, and lies at the predecessor's time or
-- later and before the block.
empty_slots_accounts :
    (k : Constants) (l : CandidateList) (prev block : Block) (addresses : List ℕ)
    → 0 < k.block_interval
    → prev.timestamp < block.timestamp
    → block.timestamp + k.block_interval < u64_mod
    → let s = slots_since k.block_interval prev.timestamp block.timestamp in
      let points = empty_slots k l prev block addresses s in
      All (IsEmptySlot prev.timestamp block.timestamp) points
      × (length points + sum_slots (aggregate prev s) ≡ s - 1)
unfolding empty_slots aggregate
empty_slots_accounts k l prev block addresses pos h fits =
    let s = slots_since k.block_interval prev.timestamp block.timestamp in
    let bounds = slots_since_bounds k.block_interval prev.timestamp block.timestamp pos h fits in
    let small : s < u64_mod =
      slots_since_small k.block_interval prev.timestamp block.timestamp pos in
    let split : s * k.block_interval ≡ (s - 1) * k.block_interval + k.block_interval =
      pred-mul s k.block_interval bounds.0 in
    accounts k l prev block addresses s bounds.0 small (omega arith) (omega arith)
