-- ===== src/Stats/Transactions/Written/Coefficients.antt =====
-- What stats/transactions/coef_stats.go keeps of a block's transactions, and where it panics.
use thorflux.Base.{
  ℕ, ◌+◌, ◌<◌, ◌≡◌, refl, sym, ap, ◌∙◌, subst, ◌↔◌, ◌⊎◌, inl, inr, true, false, none, some, List,
  [], ◌∷◌, ◌++◌, arith, ltb, if◌then◌else◌, lt→ltb, Bool-cases, Option-cases, length, Any,
}
use thorflux.Base.Sorting.{key_lt, length-sort_by}
use mathlib.Core.List.{append_assoc, append-nil}
use thorflux.Chain.{Tx}
use thorflux.Stats.Transactions.{
  CoefStats, no_coefs, add_coef, is_legacy, process_coef, then_coefs, process_coefs, finalize_calc,
}
use thorflux.Stats.Transactions.Written.Counters.{or_none, total_of}

abbrev pub LacksCoef : Tx → Type 0
LacksCoef t = (is_legacy t.tx_type ≡ true) × (t.gas_price_coef ≡ none)

-- The coefficients of the legacy transactions, in order.
abbrev pub coefs_of : List Tx → List ℕ
coefs_of [] = []
coefs_of (t ∷ ts) =
    if is_legacy t.tx_type then or_none t.gas_price_coef (coefs_of ts) else coefs_of ts

-- A transaction without a coefficient of its own, one that panics, and one with a coefficient.
process_coef-cases :
    (s : CoefStats) (t : Tx)
    → ((is_legacy t.tx_type ≡ false) × (process_coef s t ≡ some s))
      ⊎ ((LacksCoef t × (process_coef s t ≡ none))
          ⊎ ((c : ℕ) × (is_legacy t.tx_type ≡ true)
              × (t.gas_price_coef ≡ some c)
              × (process_coef s t ≡ add_coef s (some c))))
unfolding process_coef add_coef
process_coef-cases s t = elim (Bool-cases (is_legacy t.tx_type)) [
  | inr e ↦ inl (e, simp e refl)
  | inl e ↦ elim (Option-cases t.gas_price_coef) [
    | inl m ↦ inr (inl ((e, m), simp (e, m) refl))
    | inr (c, m) ↦ inr (inr (c, e, m, simp (e, m) refl))
  ]
]

pub process_coefs-none :
    (ts : List Tx) (s : CoefStats) → (process_coefs ts s ≡ none) ↔ Any LacksCoef ts
unfolding process_coefs then_coefs add_coef
process_coefs-none [] s = ((λ h. cc), (λ h. elim h [ ]))
process_coefs-none (t ∷ ts) s = elim (process_coef-cases s t) [
  | inl (e, h) ↦
      let rest = process_coefs-none ts s in
      rw h ((λ n. inr (rest.0 n)), (λ a. elim a [ inl l ↦ let m = l.0 in cc | inr b ↦ rest.1 b ]))
  | inr (inl (lacks, h)) ↦ rw h ((λ n. inl lacks), (λ a. refl))
  | inr (inr (c, e, m, h)) ↦
      let rest = process_coefs-none ts _ in
      rw h ((λ n. inr (rest.0 n)), (λ a. elim a [ inl l ↦ let m' = l.1 in cc | inr b ↦ rest.1 b ]))
]

-- The coefficients and their sum after the transactions.
pub record FromCoefs (ts : List Tx) (s out : CoefStats) : Type 0 where
  pub coefs : out.coefs ≡ s.coefs ++ coefs_of ts
  pub sum : out.sum ≡ s.sum + total_of (coefs_of ts)

pub process_coefs-FromCoefs :
    (ts : List Tx) (s out : CoefStats) → process_coefs ts s ≡ some out → FromCoefs ts s out
unfolding process_coefs then_coefs add_coef
process_coefs-FromCoefs [] s out h =
    let same : s ≡ out = cc in
    subst (FromCoefs [] s) same (record { coefs = sym (append-nil s.coefs); sum = omega arith })
process_coefs-FromCoefs (t ∷ ts) s out h = elim (process_coef-cases s t) [
  | inl (e, k) ↦
      let rest = process_coefs-FromCoefs ts s out (rw k at h) in
      record { coefs = rw e rest.coefs; sum = rw e rest.sum }
  | inr (inl (lacks, k)) ↦ absurd (let no = rw k at h in cc)
  | inr (inr (c, e, m, k)) ↦
      let rest = process_coefs-FromCoefs ts _ out (rw k at h) in
      record {
        coefs = simp (e, m) (rest.coefs ∙ append_assoc s.coefs (c ∷ []) (coefs_of ts));
        sum = simp (e, m) (omega (arith, rest.sum));
      }
]

pub averaged :
    {ts : List Tx} (c : CoefStats)
    → FromCoefs ts no_coefs c
    → 0 < length (coefs_of ts)
    → (order : List (ℕ × ℕ))
    → (finalize_calc c order).average ≡ (total_of (coefs_of ts), length (coefs_of ts))
unfolding finalize_calc
averaged {ts} c from some_coef order =
    let seen : length c.coefs ≡ length (coefs_of ts) = ap length from.coefs in
    let total : c.sum ≡ total_of (coefs_of ts) = omega (arith, from.sum) in
    let positive : ltb 0 (length c.coefs) ≡ true = lt→ltb _ _ (omega arith) in
    rw (positive, length-sort_by (key_lt (λ c. c)) c.coefs, seen, total) refl
