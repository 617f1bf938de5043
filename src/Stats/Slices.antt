-- ===== src/Stats/Slices.antt =====
-- Slices of a list that is put together from known parts.

use thorflux.Base.{
  ℕ, ◌+◌, ◌-◌, ◌≡◌, refl, ap, subst, true, List, [], ◌∷◌, ◌++◌, arith, leb, le→leb, length, take,
  length-append,
}
use thorflux.Stats.Outcome.{done, drop, slice, slice_from}

module _ {ℓ} {A : Type ℓ} where
  take-append : (xs ys : List A) → take (length xs) (xs ++ ys) ≡ xs
  take-append [] ys = refl
  take-append (x ∷ xs) ys = ap (◌∷◌ x) (take-append xs ys)

  drop-append : (xs ys : List A) → drop (length xs) (xs ++ ys) ≡ ys
  drop-append [] ys = refl
  drop-append (x ∷ xs) ys = drop-append xs ys

module _ {ℓ} {A : Type ℓ} where
  pub slice-first : (xs ys : List A) (n : ℕ) → length xs ≡ n → slice (xs ++ ys) 0 n ≡ done xs
  unfolding slice
  slice-first xs ys n h =
      let fits : leb n (length (xs ++ ys)) ≡ true =
        le→leb n (length (xs ++ ys)) (omega (arith, length-append {ℓ} xs ys)) in
      let taken : take n (xs ++ ys) ≡ xs =
        subst (λ m. take m (xs ++ ys) ≡ xs) h (take-append xs ys) in
      let whole : n - 0 ≡ n = omega arith in rw (fits, whole, taken) refl

  pub slice-second :
      (xs ys zs : List A) (n m : ℕ)
      → length xs ≡ n
      → n + length ys ≡ m
      → slice (xs ++ (ys ++ zs)) n m ≡ done ys
  unfolding slice
  slice-second xs ys zs n m h k =
      let fits : leb m (length (xs ++ (ys ++ zs))) ≡ true =
        le→leb m (length (xs ++ (ys ++ zs)))
          (omega (arith, length-append {ℓ} xs (ys ++ zs), length-append {ℓ} ys zs)) in
      let dropped : drop n (xs ++ (ys ++ zs)) ≡ ys ++ zs =
        subst (λ i. drop i (xs ++ (ys ++ zs)) ≡ ys ++ zs) h (drop-append xs (ys ++ zs)) in
      let count : m - n ≡ length ys = omega arith in
      rw (fits, dropped, count, take-append ys zs) refl

  pub slice_from-append :
      (xs ys : List A) (n : ℕ) → length xs ≡ n → slice_from (xs ++ ys) n ≡ done ys
  unfolding slice_from
  slice_from-append xs ys n h =
      let fits : leb n (length (xs ++ ys)) ≡ true =
        le→leb n (length (xs ++ ys)) (omega (arith, length-append {ℓ} xs ys)) in
      let dropped : drop n (xs ++ ys) ≡ ys =
        subst (λ i. drop i (xs ++ ys) ≡ ys) h (drop-append xs ys) in
      rw (fits, dropped) refl
