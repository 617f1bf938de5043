-- ===== src/Stats/Prices/Spacing.antt =====
-- How far apart the points of stats/priceapi/priceapi.go are.
use thorflux.Base.{
  ℕ, ◌+◌, ◌-◌, ◌≤◌, ◌≡◌, refl, ◌⊎◌, inl, inr, false, List, [], ◌∷◌, arith, ltb, Bool-cases, All,
  Any, All-mono,
}
use thorflux.Chain.{Result, ok, err}
use thorflux.Stats.Prices.{
  minutes, PriceApi, Readings, PricePoint, Deletion, since, unchanged, with_prices, with_vtho,
  with_vet, write_prices, write_all,
}

-- The clock does not go back during a call.
pub record ClockRuns (r : Readings) : Type 0 where
  pub to_stop : r.asked ≤ r.stop_read
  pub to_start : r.stop_read ≤ r.start_read
  pub to_update : r.start_read ≤ r.updated

-- Each point is at least five minutes later than the one before, the first than `time`.
abbrev pub IsSpaced : (time : ℕ) → List PricePoint → Type 0
IsSpaced time [] = Unit {0}
IsSpaced time (p ∷ ps) = (time + minutes 5 ≤ p.time) × IsSpaced p.time ps

-- A point is made of the two prices that one of the calls has read.
abbrev pub IsRead : List Readings → PricePoint → Type 0
IsRead rs p =
    Any
      (λ (r : Readings).
        (r.vet_value ≡ ok p.vet_price) × (r.vtho_value ≡ ok p.vtho_price) × (p.time ≡ r.updated))
      rs

-- What one call does: nothing, or an update.
write_prices-cases :
    (p : PriceApi) (r : Readings)
    → (write_prices p r ≡ unchanged p)
      ⊎ ((vet : ℕ) × (vtho : ℕ) × (r.vet_value ≡ ok vet)
          × (r.vtho_value ≡ ok vtho)
          × (p.last_update + minutes 5 ≤ r.asked)
          × (write_prices p r ≡ with_prices r vet vtho))
unfolding write_prices since with_vet with_vtho
write_prices-cases p r = elim (Bool-cases (ltb (since r.asked p.last_update) (minutes 5))) [
  | inl e ↦ inl (simp e refl)
  | inr e ↦ by_vet r.vet_value r.vtho_value refl refl e
]
  where
    by_vet :
        (vet vtho : Result ℕ)
        → r.vet_value ≡ vet
        → r.vtho_value ≡ vtho
        → ltb (since r.asked p.last_update) (minutes 5) ≡ false
        → (write_prices p r ≡ unchanged p)
          ⊎ ((vet : ℕ) × (vtho : ℕ) × (r.vet_value ≡ ok vet)
              × (r.vtho_value ≡ ok vtho)
              × (p.last_update + minutes 5 ≤ r.asked)
              × (write_prices p r ≡ with_prices r vet vtho))
    by_vet (err x) vtho a b e = inl (simp (e, a) refl)
    by_vet (ok vet) (err x) a b e = inl (simp (e, a, b) refl)
    by_vet (ok vet) (ok vtho) a b e = inr (vet, vtho, a, b, ground arith, simp (e, a, b) refl)

-- Each deletion ends at least twenty minutes before the point that is written with it.
abbrev pub Spares : List Deletion → List PricePoint → Type 0
Spares [] [] = Unit {0}
Spares [] (p ∷ ps) = ⊥
Spares (d ∷ ds) [] = ⊥
Spares (d ∷ ds) (p ∷ ps) = (d.stop ≤ p.time - minutes 20) × Spares ds ps

-- Over any sequence of calls in which the clock does not go back, the points are at least five minutes
-- apart, each holds the two prices that one of the calls has read, and each deletion keeps the last
-- twenty minutes before the point written with it.
pub write_all-IsSpaced :
    (p : PriceApi) (rs : List Readings)
    → All ClockRuns rs
    → let w = write_all p rs in
      IsSpaced p.last_update w.points × All (IsRead rs) w.points × Spares w.deletions w.points
unfolding write_all with_prices
write_all-IsSpaced p [] runs = (tt, tt, tt)
write_all-IsSpaced p (r ∷ rs) runs = elim (write_prices-cases p r) [
  | inl same ↦
      let (spaced, read, spared) = write_all-IsSpaced p rs runs.1 in
      rw same (spaced, All-mono (IsRead rs) (IsRead (r ∷ rs)) (λ q a. inr a) _ read, spared)
  | inr (vet, vtho, a, b, due, updated) ↦
      let (spaced, read, spared) =
        write_all-IsSpaced (record { last_update = r.updated }) rs runs.1 in
      let runs' = runs.0 in
      rw updated (
        (omega (arith, due, runs'.to_stop, runs'.to_start, runs'.to_update), spaced),
        (inl (a, b, refl), All-mono (IsRead rs) (IsRead (r ∷ rs)) (λ q x. inr x) _ read),
        (omega (arith, runs'.to_start, runs'.to_update), spared),
      )
]
