-- ===== src/Stats/Pos/Overview.antt =====
-- The totals over the validators in stats/pos/writer.go.
use thorflux.Base.{ℕ, ◌+◌, ◌≡◌, inl, inr, List, [], ◌∷◌, arith, if◌then◌else◌, Bool-cases, u64}
use thorflux.Types.{Validation}
use thorflux.Stats.Pos.{Totals, no_totals, is_active, add_side, add_common, totals_from}

-- A sum over the active validators.
abbrev pub active_sum : (Validation → ℕ) → List Validation → ℕ
active_sum f [] = 0
active_sum f (v ∷ vs) = (if is_active v.status then f v else 0) + active_sum f vs

add_side_lem :
    (v : Validation) (t : Totals)
    → t.accumulated_weight ≡ u64 (t.online_weight + t.offline_weight)
    → let r = add_side v (add_common v t) in
      (r.online_validators + r.offline_validators ≡ t.online_validators + t.offline_validators + 1)
      × (r.accumulated_weight ≡ u64 (r.online_weight + r.offline_weight))
      × (r.online_stake + r.offline_stake
          ≡ t.online_stake + t.offline_stake + (v.total_locked_stake + v.delegator_stake))
unfolding add_side add_common
add_side_lem v t h = elim (Bool-cases v.online) [
  | inl o ↦ simp o (omega arith, omega arith, omega arith)
  | inr o ↦ simp o (omega arith, omega arith, omega arith)
]

totals_from_lem :
    (t : Totals) (vs : List Validation)
    → t.accumulated_weight ≡ u64 (t.online_weight + t.offline_weight)
    → let r = totals_from t vs in
      (r.online_validators + r.offline_validators
        ≡ t.online_validators + t.offline_validators + active_sum (λ v. 1) vs)
      × (r.accumulated_weight ≡ u64 (r.online_weight + r.offline_weight))
      × (r.online_stake + r.offline_stake
          ≡ t.online_stake
            + t.offline_stake
            + active_sum (λ (v : Validation). v.total_locked_stake + v.delegator_stake) vs)
unfolding totals_from
totals_from_lem t [] h = (omega arith, h, omega arith)
totals_from_lem t (v ∷ vs) h = elim (Bool-cases (is_active v.status)) [
  | inl a ↦
      let (same, weights, stakes) = add_side_lem v t h in
      let (counted, split, staked) = totals_from_lem (add_side v (add_common v t)) vs weights in
      simp a (omega arith, split, omega arith)
  | inr a ↦
      let (counted, split, staked) = totals_from_lem t vs h in
      simp a (omega arith, split, omega arith)
]

-- Each active validator is counted as online or offline. The weights of the two groups add up, on
-- uint64, to the accumulated weight; their stakes to the locked stakes plus the delegated stakes, which
-- the former contain already.
totals_from-split :
    (vs : List Validation)
    → let t = totals_from no_totals vs in
      (t.online_validators + t.offline_validators ≡ active_sum (λ v. 1) vs)
      × (t.accumulated_weight ≡ u64 (t.online_weight + t.offline_weight))
      × (t.online_stake + t.offline_stake
          ≡ active_sum (λ (v : Validation). v.total_locked_stake + v.delegator_stake) vs)
totals_from-split vs =
    let (counted, split, staked) = totals_from_lem no_totals vs (omega arith) in
    (omega arith, split, omega arith)
