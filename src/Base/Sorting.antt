-- ===== src/Base/Sorting.antt =====
-- The sorts of the standard library (sort.Slice, slices.SortStableFunc) as a stable insertion sort by
-- a Boolean "less": a permutation, ascending, that commutes with a selection and with a renaming.
use Prim.Native.Nat.{ℕ, suc}
use mathlib.Core.Path.{◌≡◌, refl, ap, ◌∙◌}
use mathlib.Core.Bool.{Bool, true, false}
use mathlib.Core.List.{List, [], ◌∷◌, map, Perm}
use mathlib.Core.List.Perm
use mathlib.Core.Logic.{inl, inr}
use native.Mathlib.Omega.{arith}
use thorflux.Base.Tests.{ltb, if◌then◌else◌, Bool-cases}
use thorflux.Base.Lists.{select, All, length}

module _ {ℓ} {A : Type ℓ} (lt : A → A → Bool) where
  -- Behind every element that is not above `x` from the front: an equal one stays behind `x`.
  unfoldable pub insert_by : A → List A → List A
  insert_by x [] = x ∷ []
  insert_by x (y ∷ ys) = if lt y x then y ∷ insert_by x ys else x ∷ y ∷ ys

  unfoldable pub sort_by : List A → List A
  unfolding insert_by
  sort_by [] = []
  sort_by (x ∷ xs) = insert_by x (sort_by xs)

  -- No later element is less than an earlier one.
  abbrev pub IsAscending : List A → Type ℓ
  IsAscending [] = Unit
  IsAscending (x ∷ xs) = All (λ y. lt y x ≡ false) xs × IsAscending xs

  pub insert_by-perm : (x : A) (ys : List A) → Perm (insert_by x ys) (x ∷ ys)
  unfolding insert_by
  insert_by-perm x [] = Perm.rfl
  insert_by-perm x (y ∷ ys) = elim (Bool-cases (lt y x)) [
    | inl h ↦ rw (h, insert_by) (Perm.trans (Perm.cons y (insert_by-perm x ys)) (Perm.swap x y ys))
    | inr h ↦ rw (h, insert_by) Perm.rfl
  ]

  pub sort_by-perm : (xs : List A) → Perm (sort_by xs) xs
  unfolding sort_by
  sort_by-perm [] = Perm.rfl
  sort_by-perm (x ∷ xs) = Perm.trans (insert_by-perm x (sort_by xs)) (Perm.cons x (sort_by-perm xs))

module _ {ℓ} {A : Type ℓ} (lt : A → A → Bool) where
  length-insert_by : (x : A) (ys : List A) → length (insert_by lt x ys) ≡ suc (length ys)
  unfolding insert_by
  length-insert_by x [] = refl
  length-insert_by x (y ∷ ys) = elim (Bool-cases (lt y x)) [
    | inl h ↦ rw (h, insert_by) (ap suc (length-insert_by x ys))
    | inr h ↦ rw (h, insert_by) refl
  ]

  pub length-sort_by : (xs : List A) → length (sort_by lt xs) ≡ length xs
  unfolding sort_by
  length-sort_by [] = refl
  length-sort_by (x ∷ xs) = length-insert_by x (sort_by lt xs) ∙ ap suc (length-sort_by xs)

-- `lt` is a strict order whose incomparable elements are equivalent.
pub record IsOrder {ℓ} {A : Type ℓ} (lt : A → A → Bool) : Type ℓ where
  pub asym : (a b : A) → lt a b ≡ true → lt b a ≡ false
  pub not_trans : (a b c : A) → lt b a ≡ false → lt c b ≡ false → lt c a ≡ false

module _ {ℓ} {A : Type ℓ} {lt : A → A → Bool} (o : IsOrder lt) where
  All-above :
      (x y : A) (ys : List A)
      → lt y x ≡ false
      → All (λ z. lt z y ≡ false) ys
      → All (λ z. lt z x ≡ false) ys
  All-above x y [] h a = tt
  All-above x y (z ∷ ys) h a = (o.not_trans x y z h a.0, All-above x y ys h a.1)

  All-insert_by :
      (P : A → Type 0) (x : A) (ys : List A) → P x → All P ys → All P (insert_by lt x ys)
  unfolding insert_by
  All-insert_by P x [] p a = (p, tt)
  All-insert_by P x (y ∷ ys) p a = elim (Bool-cases (lt y x)) [
    | inl h ↦ rw h (a.0, All-insert_by P x ys p a.1)
    | inr h ↦ rw h (p, a)
  ]

  insert_by-IsAscending :
      (x : A) (ys : List A) → IsAscending lt ys → IsAscending lt (insert_by lt x ys)
  unfolding insert_by
  insert_by-IsAscending x [] s = (tt, tt)
  insert_by-IsAscending x (y ∷ ys) s = elim (Bool-cases (lt y x)) [
    | inl h ↦ rw h (
      All-insert_by (λ z. lt z y ≡ false) x ys (o.asym y x h) s.0,
      insert_by-IsAscending x ys s.1,
    )
    | inr h ↦ rw h ((h, All-above x y ys h s.0), s)
  ]

  pub All-sort_by : (P : A → Type 0) (xs : List A) → All P xs → All P (sort_by lt xs)
  unfolding sort_by
  All-sort_by P [] h = tt
  All-sort_by P (x ∷ xs) h = All-insert_by P x (sort_by lt xs) h.0 (All-sort_by P xs h.1)

  pub sort_by-IsAscending : (xs : List A) → IsAscending lt (sort_by lt xs)
  unfolding sort_by
  sort_by-IsAscending [] = tt
  sort_by-IsAscending (x ∷ xs) = insert_by-IsAscending x (sort_by lt xs) (sort_by-IsAscending xs)

  insert_by-front :
      (x : A) (ys : List A) → All (λ z. lt z x ≡ false) ys → insert_by lt x ys ≡ x ∷ ys
  unfolding insert_by
  insert_by-front x [] a = refl
  insert_by-front x (y ∷ ys) a = rw a.0

  All-select : (P : A → Type 0) (p : A → Bool) (xs : List A) → All P xs → All P (select p xs)
  All-select P p [] a = tt
  All-select P p (x ∷ xs) a = elim (Bool-cases (p x)) [
    | inl h ↦ rw h (a.0, All-select P p xs a.1)
    | inr h ↦ rw h (All-select P p xs a.1)
  ]

  select-insert_by :
      (p : A → Bool) (x : A) (ys : List A)
      → IsAscending lt ys
      → select p (insert_by lt x ys) ≡ (if p x then insert_by lt x (select p ys) else select p ys)
  unfolding insert_by
  select-insert_by p x [] s = refl
  select-insert_by p x (y ∷ ys) s = elim (Bool-cases (lt y x)) [
    | inl h ↦ ground (arith, h, select-insert_by p x ys s.1)
    | inr h ↦
        let above = All-select (λ z. lt z x ≡ false) p ys (All-above x y ys h s.0) in
        ground (arith, h, insert_by-front x (select p ys) above)
  ]

  -- Selecting before sorting is selecting after.
  pub select-sort_by :
      (p : A → Bool) (xs : List A) → select p (sort_by lt xs) ≡ sort_by lt (select p xs)
  unfolding sort_by
  select-sort_by p [] = refl
  select-sort_by p (x ∷ xs) =
      let moved = select-insert_by p x (sort_by lt xs) (sort_by-IsAscending xs) in
      elim (Bool-cases (p x)) [
        | inl h ↦ rw (h) (rw h at moved ∙ ap (insert_by lt x) (select-sort_by p xs))
        | inr h ↦ rw (h) (rw h at moved ∙ select-sort_by p xs)
      ]

module _ {ℓ κ} {A : Type ℓ} {B : Type κ} (f : A → B) (lt : B → B → Bool) where
  map-insert_by :
      (x : A) (ys : List A)
      → map f (insert_by (λ a b. lt (f a) (f b)) x ys) ≡ insert_by lt (f x) (map f ys)
  unfolding insert_by
  map-insert_by x [] = refl
  map-insert_by x (y ∷ ys) = elim (Bool-cases (lt (f y) (f x))) [
    | inl h ↦ rw h (ap (◌∷◌ (f y)) (map-insert_by x ys))
    | inr h ↦ rw h
  ]

  -- Sorting by a field and keeping that field is sorting the fields.
  pub map-sort_by :
      (xs : List A) → map f (sort_by (λ a b. lt (f a) (f b)) xs) ≡ sort_by lt (map f xs)
  unfolding sort_by
  map-sort_by [] = refl
  map-sort_by (x ∷ xs) =
      map-insert_by x (sort_by (λ a b. lt (f a) (f b)) xs)
      ∙ ap (insert_by lt (f x)) (map-sort_by xs)

-- The order of numeric keys.
abbrev pub key_lt {ℓ} : {A : Type ℓ} → (A → ℕ) → A → A → Bool
key_lt key a b = ltb (key a) (key b)

pub key_lt-IsOrder {ℓ} : {A : Type ℓ} (key : A → ℕ) → IsOrder (key_lt key)
key_lt-IsOrder key = record { asym = λ a b h. ground arith; not_trans = λ a b c h k. ground arith }
