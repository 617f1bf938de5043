-- ===== src/Stats/Outcome.antt =====
-- What a call that may panic comes to: Go's index and slice expressions, nil dereferences and the
-- `Must` functions of the libraries panic, the rest of the code returns errors.
use thorflux.Base.{
  ℕ, zero, suc, ◌-◌, String, ◌≡◌, refl, ◌≢◌, ◌↔◌, ◌⊎◌, inl, inr, Option, none, some, List, [], ◌∷◌,
  leb, if◌then◌else◌, length, get_elem?, take,
}
use thorflux.Chain.{Error, Result, ok, err, wrapped}

pub data Outcome {ℓ} (A : Type ℓ) : Type ℓ where
  done : A → Outcome A
  failed : Error → Outcome A
  panicked : Outcome A

infixl 5 ◌>>=◌
unfoldable pub ◌>>=◌ {ℓ κ} : {A : Type ℓ} {B : Type κ} → Outcome A → (A → Outcome B) → Outcome B
done a >>= f = f a
failed e >>= f = failed e
panicked >>= f = panicked

-- `if err != nil { return nil, fmt.Errorf(msg, err) }`.
abbrev pub check {ℓ} : {A : Type ℓ} → String → Result A → Outcome A
check msg (ok a) = done a
check msg (err e) = failed (wrapped msg e)

-- `if err != nil { return nil, err }`.
abbrev pub returned {ℓ} : {A : Type ℓ} → Result A → Outcome A
returned (ok a) = done a
returned (err e) = failed e

-- The same around a call that may panic.
abbrev pub check_call {ℓ} : {A : Type ℓ} → String → Outcome A → Outcome A
check_call msg (done a) = done a
check_call msg (failed e) = failed (wrapped msg e)
check_call msg panicked = panicked

-- A pointer that must not be nil.
abbrev pub deref {ℓ} : {A : Type ℓ} → Option A → Outcome A
deref none = panicked
deref (some a) = done a

-- `xs[i]`.
abbrev pub at {ℓ} : {A : Type ℓ} → List A → ℕ → Outcome A
at xs i = deref (get_elem? xs i)

abbrev pub drop {ℓ} : {A : Type ℓ} → ℕ → List A → List A
drop zero xs = xs
drop (suc n) [] = []
drop (suc n) (x ∷ xs) = drop n xs

-- `xs[lo:hi]` and `xs[lo:]`; behind the end they panic.
unfoldable pub slice {ℓ} : {A : Type ℓ} → List A → (lo hi : ℕ) → Outcome (List A)
slice xs lo hi = if leb hi (length xs) then done (take (hi - lo) (drop lo xs)) else panicked

unfoldable pub slice_from {ℓ} : {A : Type ℓ} → List A → (lo : ℕ) → Outcome (List A)
slice_from xs lo = if leb lo (length xs) then done (drop lo xs) else panicked

-- What a call that ended went through.
pub >>=-eq-done {ℓ κ} :
    {A : Type ℓ} {B : Type κ} (m : Outcome A) (f : A → Outcome B) {r : B}
    → (m >>= f) ≡ done r
    → (a : A) × (m ≡ done a) × (f a ≡ done r)
unfolding ◌>>=◌
>>=-eq-done (done a) f e = (a, refl, e)
>>=-eq-done (failed x) f e = cc
>>=-eq-done panicked f e = cc

-- A call that a value is made of panics with the value.
pub map-panicked {ℓ κ} :
    {A : Type ℓ} {B : Type κ} (m : Outcome A) (f : A → B)
    → ((m >>= (λ a. done (f a))) ≡ panicked) ↔ (m ≡ panicked)
unfolding ◌>>=◌
map-panicked (done a) f = ((λ e. cc), (λ e. cc))
map-panicked (failed x) f = ((λ e. cc), (λ e. cc))
map-panicked panicked f = ((λ e. refl), (λ e. refl))

-- Where a chain of calls panics.
pub >>=-panicked {ℓ κ} :
    {A : Type ℓ} {B : Type κ} (m : Outcome A) (f : A → Outcome B)
    → (m >>= f) ≡ panicked
    → (m ≡ panicked) ⊎ ((a : A) × (m ≡ done a) × (f a ≡ panicked))
unfolding ◌>>=◌
>>=-panicked (done a) f e = inr (a, refl, e)
>>=-panicked (failed x) f e = cc
>>=-panicked panicked f e = inl refl

pub returned-panicked {ℓ} : {A : Type ℓ} (r : Result A) → returned r ≢ panicked
returned-panicked (ok a) e = cc
returned-panicked (err x) e = cc

pub returned-done {ℓ} : {A : Type ℓ} (r : Result A) {a : A} → returned r ≡ done a → r ≡ ok a
returned-done (ok a) e = cc
returned-done (err x) e = cc

pub deref-panicked {ℓ} : {A : Type ℓ} (p : Option A) → deref p ≡ panicked → p ≡ none
deref-panicked none e = refl
deref-panicked (some a) e = cc

pub deref-done {ℓ} : {A : Type ℓ} (p : Option A) {a : A} → deref p ≡ done a → p ≡ some a
deref-done none e = cc
deref-done (some a) e = cc

-- What a checked call that ended went through.
pub check-done {ℓ} :
    {A : Type ℓ} (msg : String) (r : Result A) {a : A} → check msg r ≡ done a → r ≡ ok a
check-done msg (ok a) e = cc
check-done msg (err x) e = cc

pub check_call-done {ℓ} :
    {A : Type ℓ} (msg : String) (o : Outcome A) {a : A} → check_call msg o ≡ done a → o ≡ done a
check_call-done msg (done a) e = e
check_call-done msg (failed x) e = cc
check_call-done msg panicked e = cc

pub done-injective {ℓ} : {A : Type ℓ} {a b : A} → done a ≡ done b → a ≡ b
done-injective h = cc
