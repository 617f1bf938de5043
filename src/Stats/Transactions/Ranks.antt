-- ===== src/Stats/Transactions/Ranks.antt =====
-- The ranks of the coefficients that stats/transactions/coef_stats.go reports.
use thorflux.Base.{
  ℕ, zero, suc, ◌+◌, ◌-◌, ◌/◌, ◌≤◌, ◌<◌, ◌≡◌, refl, sym, ap, ◌∙◌, subst, ◌⊎◌, inl, inr, Bool, true,
  false, Option, none, some, List, [], ◌∷◌, ◌++◌, arith, ltb, ◌==◌, if◌then◌else◌, lt→ltb,
  Bool-cases, Option-cases, length, select, All, count, length-select-le, Any, All-mono,
  count-append,
}
use thorflux.Base.Sorting.{
  sort_by, key_lt, IsAscending, key_lt-IsOrder, length-sort_by, select-sort_by, sort_by-IsAscending,
}
use thorflux.Stats.Transactions.{
  at_index, mode_from, increment, finalize_calc, process_coef, process_coefs, CoefStats, add_coef,
  Tx, then_coefs, no_coefs, is_legacy,
}

-- At most k numbers are less than m, and at most as many greater as stand behind the k-th.
abbrev pub HasRank : ℕ → ℕ → List ℕ → Type 0
HasRank k m xs =
    (length (select (λ c. ltb c m) xs) ≤ k)
    × (length (select (λ c. ltb m c) xs) + k + 1 ≤ length xs)

abbrev is_less : ℕ → ℕ → Bool
is_less = key_lt (λ c. c)

none_less :
    (m : ℕ) (xs : List ℕ)
    → All (λ y. is_less y m ≡ false) xs
    → length (select (λ c. ltb c m) xs) ≡ 0
none_less m [] h = refl
none_less m (x ∷ xs) h = rw h.0 (none_less m xs h.1)

All-at_index : (P : ℕ → Type 0) (xs : List ℕ) (k : ℕ) → All P xs → k < length xs → P (at_index xs k)
All-at_index P [] k a h = absurd (omega arith)
All-at_index P (x ∷ xs) zero a h = a.0
All-at_index P (x ∷ xs) (suc k) a h = All-at_index P xs k a.1 (omega arith)

sorted-HasRank :
    (xs : List ℕ) (k : ℕ) → IsAscending is_less xs → k < length xs → HasRank k (at_index xs k) xs
sorted-HasRank [] k a h = absurd (omega arith)
sorted-HasRank (x ∷ xs) zero a h =
    let not_self : ltb x x ≡ false = ground arith in
    let none_below = none_less x xs a.0 in
    rw not_self (omega arith, omega (arith, length-select-le (λ c. ltb x c) xs))
sorted-HasRank (x ∷ xs) (suc k) a h =
    let below = All-at_index (λ y. is_less y x ≡ false) xs k a.0 (omega arith) in
    let rest = sorted-HasRank xs k a.1 (omega arith) in rw below (ground arith, omega arith)

sort_by-HasRank :
    (xs : List ℕ) (k : ℕ) → k < length xs → HasRank k (at_index (sort_by is_less xs) k) xs
sort_by-HasRank xs k h =
    let sorted = sort_by is_less xs in
    let m = at_index sorted k in
    let same_length : length sorted ≡ length xs = length-sort_by is_less xs in
    let order = key_lt-IsOrder (λ (c : ℕ). c) in
    let ranked = sorted-HasRank sorted k (sort_by-IsAscending order xs) (omega arith) in
    let less : length (select (λ c. ltb c m) sorted) ≡ length (select (λ c. ltb c m) xs) =
      ap length (select-sort_by order (λ c. ltb c m) xs) ∙ length-sort_by is_less _ in
    let more : length (select (λ c. ltb m c) sorted) ≡ length (select (λ c. ltb m c) xs) =
      ap length (select-sort_by order (λ c. ltb m c) xs) ∙ length-sort_by is_less _ in
    (omega arith, omega arith)

-- The count of an entry of the map, zero for a number without one.
abbrev counted : ℕ → List (ℕ × ℕ) → ℕ
counted k [] = 0
counted k ((j, n) ∷ m) = if j == k then n else counted k m

increment-counted :
    (k c : ℕ) (m : List (ℕ × ℕ))
    → counted k (increment c m) ≡ counted k m + (if k == c then 1 else 0)
unfolding increment
increment-counted k c [] = ground arith
increment-counted k c ((j, n) ∷ m) = elim (Bool-cases (j == c)) [
  | inl e ↦ rw e (ground arith)
  | inr e ↦ rw e (ground (arith, increment-counted k c m))
]

-- The loop ends with a count that no entry exceeds, and with the number of such an entry, if there is
-- any.
mode_from_max :
    (mode n : ℕ) (order : List (ℕ × ℕ))
    → (top : ℕ) × (best : ℕ) × (mode_from mode n order ≡ best)
      × (n ≤ top)
      × All (λ (e : ℕ × ℕ). e.1 ≤ top) order
      × ((best ≡ mode) × (top ≡ n) ⊎ Any (λ (e : ℕ × ℕ). (e.0 ≡ best) × (e.1 ≡ top)) order)
unfolding mode_from
mode_from_max mode n [] = (n, mode, refl, omega arith, tt, inl (refl, refl))
mode_from_max mode n ((c, k) ∷ rest) = elim (Bool-cases (ltb n k)) [
  | inl e ↦
      let (top, best, ends, above, all_below, found) = mode_from_max c k rest in
      let at_start : (best ≡ c) × (top ≡ k) → (c ≡ best) × (k ≡ top) = λ h. (sym h.0, sym h.1) in
      (
        top,
        best,
        rw e ends,
        ground arith,
        (above, all_below),
        inr (elim found [ inl kept ↦ inl (at_start kept) | inr later ↦ inr later ]),
      )
  | inr e ↦
      let (top, best, ends, above, all_below, found) = mode_from_max mode n rest in
      (
        top,
        best,
        rw e ends,
        above,
        (ground arith, all_below),
        elim found [ inl kept ↦ inl kept | inr later ↦ inr (inr later) ],
      )
]

-- Each key once, with a positive count.
abbrev IsMap : List (ℕ × ℕ) → Type 0
IsMap [] = Unit {0}
IsMap ((j, n) ∷ m) = (counted j m ≡ 0) × (1 ≤ n) × IsMap m

increment-IsMap : (c : ℕ) (m : List (ℕ × ℕ)) → IsMap m → IsMap (increment c m)
unfolding increment
increment-IsMap c [] h = (refl, omega arith, tt)
increment-IsMap c ((j, n) ∷ m) h = elim (Bool-cases (j == c)) [
  | inl e ↦ rw e (h.0, omega arith, h.2)
  | inr e ↦ rw e (ground (arith, h, increment-counted j c m), h.1, increment-IsMap c m h.2)
]

-- In a map an entry holds the count of its key, which is positive.
IsMap-entries :
    (m : List (ℕ × ℕ)) → IsMap m → All (λ (e : ℕ × ℕ). (counted e.0 m ≡ e.1) × (1 ≤ e.1)) m
IsMap-entries [] h = tt
IsMap-entries ((j, n) ∷ m) h = (
  (ground arith, h.1),
  All-mono _ (λ (e : ℕ × ℕ). (counted e.0 ((j, n) ∷ m) ≡ e.1) × (1 ≤ e.1))
      (λ (e : ℕ × ℕ) k. (later_entry e k, k.1)) m (IsMap-entries m h.2),
)
  where
    later_entry : (e : ℕ × ℕ) → (counted e.0 m ≡ e.1) × (1 ≤ e.1) → counted e.0 ((j, n) ∷ m) ≡ e.1
    later_entry (k, p) held = elim (Bool-cases (j == k)) [
      | inl same ↦
          let eq : j ≡ k = ground arith in
          let fresh : counted k m ≡ 0 = subst (λ x. counted x m ≡ 0) eq h.0 in
          absurd (omega (arith, held.0, held.1))
      | inr other_key ↦ rw other_key held.0
    ]

counted-entry :
    (k p : ℕ) (m : List (ℕ × ℕ)) → counted k m ≡ p → 1 ≤ p → Any (λ (e : ℕ × ℕ). e ≡ (k, p)) m
counted-entry k p [] h pos = absurd (omega arith)
counted-entry k p ((j, n) ∷ m) h pos = elim (Bool-cases (j == k)) [
  | inl e ↦ let same : j ≡ k = ground arith in let value : n ≡ p = rw e at h in inl (cc)
  | inr e ↦ inr (counted-entry k p m (rw e at h) pos)
]

All-Any-both :
    {A : Type 0} (P Q : A → Type 0) (xs : List A) → All P xs → Any Q xs → (x : A) × P x × Q x
All-Any-both P Q [] a h = elim h [ ]
All-Any-both P Q (x ∷ xs) a (inl q) = (x, a.0, q)
All-Any-both P Q (x ∷ xs) a (inr h) = All-Any-both P Q xs a.1 h

-- The map counts the coefficients seen so far.
record IsCounting (s : CoefStats) : Type 0 where
  is_map : IsMap s.coef_count
  counts : (k : ℕ) → counted k s.coef_count ≡ count k s.coefs

some-injective : {A : Type 0} {a b : A} → some a ≡ some b → a ≡ b
some-injective h = cc

add_coef-IsCounting :
    (s : CoefStats) (o : Option ℕ) (out : CoefStats)
    → IsCounting s
    → add_coef s o ≡ some out
    → IsCounting out
unfolding add_coef
add_coef-IsCounting s none out v h = absurd (cc)
add_coef-IsCounting s (some c) out v h =
    let next : CoefStats = record {
      coefs = s.coefs ++ c ∷ [];
      coef_count = increment c s.coef_count;
      sum = s.sum + c;
    } in
    let counting : IsCounting next = record {
      is_map = increment-IsMap c s.coef_count v.is_map;
      counts = λ k.
          omega (
            arith,
            increment-counted k c s.coef_count,
            v.counts k,
            count-append k s.coefs (c ∷ []),
          );
    } in
    let same : next ≡ out = cc in subst IsCounting same counting

process_coef-IsCounting :
    (s : CoefStats) (t : Tx) (out : CoefStats)
    → IsCounting s
    → process_coef s t ≡ some out
    → IsCounting out
unfolding process_coef
process_coef-IsCounting s t out v h = elim (Bool-cases (is_legacy t.tx_type)) [
  | inl e ↦ add_coef-IsCounting s t.gas_price_coef out v (rw e at h)
  | inr e ↦ let same : s ≡ out = some-injective (rw e at h) in subst IsCounting same v
]

process_coefs-IsCounting :
    (ts : List Tx) (s out : CoefStats)
    → IsCounting s
    → process_coefs ts s ≡ some out
    → IsCounting out
unfolding process_coefs then_coefs
process_coefs-IsCounting [] s out v h = subst IsCounting (cc) v
process_coefs-IsCounting (t ∷ ts) s out v h = elim (Option-cases (process_coef s t)) [
  | inl e ↦ absurd (cc)
  | inr (mid, e) ↦
      process_coefs-IsCounting ts mid out (process_coef-IsCounting s t mid v e) (rw e at h)
]

-- The range visits the entries of the map, in any order.
abbrev pub Visits : List (ℕ × ℕ) → List (ℕ × ℕ) → Type 0
Visits order m = All (λ e. Any (λ d. d ≡ e) m) order × All (λ e. Any (λ d. d ≡ e) order) m

mode_most :
    (s : CoefStats) (order : List (ℕ × ℕ)) (c : ℕ)
    → IsCounting s
    → Visits order s.coef_count
    → count c s.coefs ≤ count (mode_from 0 0 order) s.coefs
mode_most s order c v visits =
    let (top, best, ends, above, all_below, found) = mode_from_max 0 0 order in
    let below_top : count c s.coefs ≤ top = elim (Bool-cases (ltb 0 (counted c s.coef_count))) [
      | inl some_count ↦
          let held = counted-entry c (counted c s.coef_count) s.coef_count refl (ground arith) in
          let (e, visited, is_entry) = All-Any-both _ _ s.coef_count visits.1 held in
          let (d, small, same) = All-Any-both _ _ order all_below visited in
          let value : d.1 ≡ counted c s.coef_count = ap (λ (x : ℕ × ℕ). x.1) (same ∙ is_entry) in
          omega (arith, v.counts c)
      | inr no_count ↦ ground (arith, v.counts c)
    ] in
    rw ends (elim found [
      | inl nothing ↦ omega (arith, nothing.1)
      | inr at_best ↦
          let (e, in_map, is_best) = All-Any-both _ _ order visits.0 at_best in
          let (d, right, same) =
            All-Any-both _ _ s.coef_count (IsMap-entries s.coef_count v.is_map) in_map in
          let key : d.0 ≡ best = ap (λ (x : ℕ × ℕ). x.0) same ∙ is_best.0 in
          let value : d.1 ≡ top = ap (λ (x : ℕ × ℕ). x.1) same ∙ is_best.1 in
          let held : counted best s.coef_count ≡ top =
            subst (λ x. counted x s.coef_count ≡ top) key (right.0 ∙ value) in
          omega (arith, v.counts best, held)
    ])

-- If a block has a legacy transaction, then of its coefficients the reported minimum has rank 0, the
-- median rank n / 2 and the maximum rank n - 1, and no number occurs more often than the mode, in
-- whatever order the map is ranged over.
pub finalize_calc-ranks :
    (ts : List Tx) (s : CoefStats) (order : List (ℕ × ℕ)) (c : ℕ)
    → process_coefs ts no_coefs ≡ some s
    → Visits order s.coef_count
    → 0 < length s.coefs
    → let r = finalize_calc s order in
      let n = length s.coefs in
      HasRank 0 r.min s.coefs
      × HasRank (n / 2) r.median s.coefs
      × HasRank (n - 1) r.max s.coefs
      × (count c s.coefs ≤ count r.mode s.coefs)
unfolding finalize_calc
finalize_calc-ranks ts s order c h visits some_coef =
    let counting =
      process_coefs-IsCounting ts no_coefs s (record { is_map = tt; counts = λ k. refl }) h in
    let positive : ltb 0 (length s.coefs) ≡ true = lt→ltb _ _ some_coef in
    rw (positive, length-sort_by is_less s.coefs)
      (
        sort_by-HasRank s.coefs 0 some_coef,
        sort_by-HasRank s.coefs (length s.coefs / 2) (omega arith),
        sort_by-HasRank s.coefs (length s.coefs - 1) (omega arith),
        mode_most s order c counting visits,
      )
