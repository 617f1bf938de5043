-- ===== src/Stats/Transactions/Candles.antt =====
-- What the candlestick of stats/transactions/priority_fee_stats.go holds.
use thorflux.Base.{
  ℕ, suc, ◌≡◌, refl, sym, subst, inl, inr, Bool, true, false, Option, none, some, List, [], ◌∷◌,
  ◌++◌, arith, ◌==◌, if◌then◌else◌, Bool-cases, Option-cases, length, All, length-append,
  All-append, Any, Any-append_left, All-mono,
}
use thorflux.Base.Sorting.{IsOrder}
use mathlib.Core.List.{append_assoc, append-nil}
use thorflux.Chain.{Tx}
use thorflux.Stats.Transactions.{PriorityFeeStats, add_fee, process_fee, process_fees}

module _ {F : Type 0} (gwei : ℕ → F) where
  abbrev pub fee_or_none : Option ℕ → List F → List F
  fee_or_none none fees = fees
  fee_or_none (some fee) fees = gwei fee ∷ fees

  -- The priority fees of the transactions that have one, in order.
  abbrev pub fees_of : List Tx → List F
  fees_of [] = []
  fees_of (t ∷ ts) = fee_or_none t.max_priority_fee (fees_of ts)

abbrev pub last_of : {F : Type 0} → F → List F → F
last_of f [] = f
last_of f (x ∷ xs) = last_of x xs

-- The candlestick of the fees `f`, `fs`: it counts them, opens with the first, closes with the last,
-- and its high and low are among them and no fee lies above or below.
pub record IsCandle {F : Type 0} (lt : F → F → Bool) (f : F) (fs : List F) (s : PriorityFeeStats F)
    : Type 0 where
  pub counted : s.candlestick_count ≡ suc (length fs)
  pub opens : s.open_fee ≡ f
  pub closes : s.close_fee ≡ last_of f fs
  pub high_among : Any (λ x. x ≡ s.high_fee) (f ∷ fs)
  pub high_most : All (λ x. lt s.high_fee x ≡ false) (f ∷ fs)
  pub low_among : Any (λ x. x ≡ s.low_fee) (f ∷ fs)
  pub low_least : All (λ x. lt x s.low_fee ≡ false) (f ∷ fs)

last_of-append : {F : Type 0} (f : F) (fs : List F) (x : F) → last_of f (fs ++ x ∷ []) ≡ x
last_of-append f [] x = refl
last_of-append f (y ∷ fs) x = last_of-append y fs x

Any-append_last : {A : Type 0} (P : A → Type 0) (xs : List A) (x : A) → P x → Any P (xs ++ x ∷ [])
Any-append_last P [] x p = inl p
Any-append_last P (y ∷ xs) x p = inr (Any-append_last P xs x p)

irreflexive : {F : Type 0} {lt : F → F → Bool} → IsOrder lt → (x : F) → lt x x ≡ false
irreflexive {lt} o x = elim (Bool-cases (lt x x)) [ inl h ↦ o.asym x x h | inr h ↦ h ]

flipped-IsOrder : {F : Type 0} {lt : F → F → Bool} → IsOrder lt → IsOrder (λ a b. lt b a)
flipped-IsOrder o = record {
  asym = λ a b h. o.asym b a h;
  not_trans = λ a b c h k. o.not_trans c b a k h;
}

-- The greatest so far, and a further one.
greater_of :
    {F : Type 0} (lt : F → F → Bool) (o : IsOrder lt) (xs : List F) (h x : F)
    → Any (λ y. y ≡ h) xs
    → All (λ y. lt h y ≡ false) xs
    → let h' = if lt h x then x else h in
      Any (λ y. y ≡ h') (xs ++ x ∷ []) × All (λ y. lt h' y ≡ false) (xs ++ x ∷ [])
greater_of lt o xs h x among most = elim (Bool-cases (lt h x)) [
  | inl e ↦
      let above =
        All-mono _ (λ y. lt x y ≡ false) (λ y k. o.not_trans y h x k (o.asym h x e)) xs most in
      rw e (Any-append_last _ xs x refl, All-append _ xs (x ∷ []) above (irreflexive o x, tt))
  | inr e ↦ rw e (Any-append_left _ xs (x ∷ []) among, All-append _ xs (x ∷ []) most (e, tt))
]

module _ {F : Type 0} (gwei : ℕ → F) (lt : F → F → Bool) (o : IsOrder lt) where
  first_fee :
      (s : PriorityFeeStats F) (x : F)
      → s.candlestick_count ≡ 0
      → IsCandle lt x [] (add_fee gwei lt s x)
  unfolding add_fee
  first_fee s x none_yet =
      let zero_count : (s.candlestick_count == 0) ≡ true = ground arith in
      let self = irreflexive o x in
      rw zero_count (record {
        counted = omega arith;
        opens = refl;
        closes = refl;
        high_among = inl refl;
        high_most = (self, tt);
        low_among = inl refl;
        low_least = (self, tt);
      })

  later_fee :
      (f : F) (fs : List F) (s : PriorityFeeStats F) (x : F)
      → IsCandle lt f fs s
      → IsCandle lt f (fs ++ x ∷ []) (add_fee gwei lt s x)
  unfolding add_fee
  later_fee f fs s x c =
      let some_count : (s.candlestick_count == 0) ≡ false = ground (arith, c.counted) in
      let high = greater_of lt o (f ∷ fs) s.high_fee x c.high_among c.high_most in
      let low =
        greater_of (λ a b. lt b a) (flipped-IsOrder o) (f ∷ fs) s.low_fee x c.low_among
          c.low_least in
      rw some_count (record {
        counted = omega (arith, c.counted, length-append fs (x ∷ []));
        opens = c.opens;
        closes = sym (last_of-append f fs x);
        high_among = high.0;
        high_most = high.1;
        low_among = low.0;
        low_least = low.1;
      })

  later_fees :
      (f : F) (fs : List F) (s : PriorityFeeStats F) (ts : List Tx)
      → IsCandle lt f fs s
      → IsCandle lt f (fs ++ fees_of gwei ts) (process_fees gwei lt s ts)
  unfolding process_fees process_fee
  later_fees f fs s [] c = subst (λ l. IsCandle lt f l s) (sym (append-nil fs)) c
  later_fees f fs s (t ∷ ts) c = elim (Option-cases t.max_priority_fee) [
    | inl e ↦ simp (e, process_fee) (later_fees f fs s ts c)
    | inr (fee, e) ↦
        let rest = later_fees f (fs ++ gwei fee ∷ []) _ ts (later_fee f fs s (gwei fee) c) in
        simp (e, process_fee)
          (subst (λ l. IsCandle lt f l (process_fees gwei lt (add_fee gwei lt s (gwei fee)) ts))
            (append_assoc fs (gwei fee ∷ []) (fees_of gwei ts)) rest)
  ]

  -- If a block's transactions have priority fees, the candlestick that starts empty ends as that of
  -- these fees: their number, the first, the last, the greatest and the least.
  pub process_fees-IsCandle :
      (s : PriorityFeeStats F) (ts : List Tx) (f : F) (fs : List F)
      → s.candlestick_count ≡ 0
      → fees_of gwei ts ≡ f ∷ fs
      → IsCandle lt f fs (process_fees gwei lt s ts)
  unfolding process_fees process_fee
  process_fees-IsCandle s [] f fs none_yet h = absurd (cc)
  process_fees-IsCandle s (t ∷ ts) f fs none_yet h = elim (Option-cases t.max_priority_fee) [
    | inl e ↦ simp (e, process_fee) (process_fees-IsCandle s ts f fs none_yet (simp e at h))
    | inr (fee, e) ↦
        let parts = simp e at h in
        let first : gwei fee ≡ f = cc in
        let others : fees_of gwei ts ≡ fs = cc in
        let rest = later_fees (gwei fee) [] _ ts (first_fee s (gwei fee) none_yet) in
        let last_state = process_fees gwei lt (add_fee gwei lt s (gwei fee)) ts in
        let opened = subst (λ y. IsCandle lt y (fees_of gwei ts) last_state) first rest in
        simp (e, process_fee) (subst (λ l. IsCandle lt f l last_state) others opened)
  ]
