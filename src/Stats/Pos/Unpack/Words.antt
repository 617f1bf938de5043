-- ===== src/Stats/Pos/Unpack/Words.antt =====
-- 32-byte words, and the whole answer of the staker contract.
use thorflux.Base.{
  ℕ, zero, suc, ◌+◌, ◌*◌, ◌/◌, ◌%◌, ◌^◌, ◌<◌, String, ◌≡◌, refl, ap, ◌∙◌, subst, true, false, List,
  [], ◌∷◌, ◌++◌, map, arith, leb, le→leb, length, take, All, length-append, u64,
}
use thorflux.Chain.{ok}
use thorflux.Types.{StakerInformation}
use thorflux.Stats.Outcome.{drop, slice, ◌>>=◌, done}
use thorflux.Stats.Pos.Unpack.{
  Row, Abi, set_bytes_from, set_bytes, unpack_info, CallResult, call_failed, fetch_staker_info,
  fetch_validations,
}
use thorflux.Stats.Pos.Unpack.RoundTrip.{arrays, columns, row_of, unpack_validators-row_of}

-- The low `k` bytes of a number, big-endian.
abbrev pub big_endian : (k n : ℕ) → List ℕ
big_endian zero n = []
big_endian (suc k) n = big_endian k (n / 256) ++ n % 256 ∷ []

length-big_endian : (k n : ℕ) → length (big_endian k n) ≡ k
length-big_endian zero n = refl
length-big_endian (suc k) n =
    omega
      (arith, length-append (big_endian k (n / 256)) (n % 256 ∷ []), length-big_endian k (n / 256))

set_bytes_from-snoc :
    (n : ℕ) (bs : List ℕ) (b : ℕ) → set_bytes_from n (bs ++ b ∷ []) ≡ set_bytes_from n bs * 256 + b
unfolding set_bytes_from
set_bytes_from-snoc n [] b = refl
set_bytes_from-snoc n (c ∷ bs) b = set_bytes_from-snoc (n * 256 + c) bs b

power : (k : ℕ) → 256 ^ suc k ≡ 256 * 256 ^ k
power k = omega arith

set_bytes_from-big_endian : (k n : ℕ) → n < 256 ^ k → set_bytes_from 0 (big_endian k n) ≡ n
unfolding set_bytes_from
set_bytes_from-big_endian zero n h = omega arith
set_bytes_from-big_endian (suc k) n h =
    let high = set_bytes_from-big_endian k (n / 256) (omega (arith, power k)) in
    set_bytes_from-snoc 0 (big_endian k (n / 256)) (n % 256) ∙ omega (arith, high)

-- A word of the contract.
unfoldable pub word : ℕ → List ℕ
word n = big_endian 32 n

length-word : (n : ℕ) → length (word n) ≡ 32
unfolding word
length-word n = length-big_endian 32 n

abbrev pub IsWord : ℕ → Type 0
IsWord n = n < 256 ^ 32

set_bytes-word : (n : ℕ) → IsWord n → set_bytes (word n) ≡ n
unfolding set_bytes word
set_bytes-word n h = set_bytes_from-big_endian 32 n h

take-append {ℓ} : {A : Type ℓ} (xs ys : List A) → take (length xs) (xs ++ ys) ≡ xs
take-append [] ys = refl
take-append (x ∷ xs) ys = ap (◌∷◌ x) (take-append xs ys)

drop-append {ℓ} : {A : Type ℓ} (xs ys : List A) → drop (length xs) (xs ++ ys) ≡ ys
drop-append [] ys = refl
drop-append (x ∷ xs) ys = drop-append xs ys

slice_first : (xs ys : List ℕ) → length xs ≡ 32 → slice (xs ++ ys) 0 32 ≡ done xs
unfolding slice
slice_first xs ys h =
    let fits : leb 32 (length (xs ++ ys)) ≡ true =
      le→leb 32 (length (xs ++ ys)) (omega (arith, length-append xs ys)) in
    let taken : take 32 (xs ++ ys) ≡ xs =
      subst (λ n. take n (xs ++ ys) ≡ xs) h (take-append xs ys) in
    rw (fits, taken) refl

take_all : (xs : List ℕ) → take (length xs) xs ≡ xs
take_all [] = refl
take_all (x ∷ xs) = ap (◌∷◌ x) (take_all xs)

slice_second : (xs ys : List ℕ) → length xs ≡ 32 → length ys ≡ 32 → slice (xs ++ ys) 32 64 ≡ done ys
unfolding slice
slice_second xs ys h k =
    let fits : leb 64 (length (xs ++ ys)) ≡ true =
      le→leb 64 (length (xs ++ ys)) (omega (arith, length-append xs ys)) in
    let dropped : drop 32 (xs ++ ys) ≡ ys =
      subst (λ n. drop n (xs ++ ys) ≡ ys) h (drop-append xs ys) in
    let taken : take 32 ys ≡ ys = subst (λ n. take n ys ≡ ys) k (take_all ys) in
    rw (fits, dropped, taken) refl

-- What the contract's nine answers hold.
pub record Answers : Type 0 where
  pub rows : List Row
  pub balance : ℕ
  pub total_vet : ℕ
  pub total_weight : ℕ
  pub queued_vet : ℕ
  pub queued_weight : ℕ
  pub supply : ℕ
  pub burned : ℕ
  pub withdrawable : ℕ
  pub cooldown : ℕ

abbrev pub IsAnswers : Answers → Type 0
IsAnswers a =
    All (λ (r : Row). r.status < 4) a.rows
    × IsWord a.balance
    × IsWord a.total_vet
    × IsWord a.total_weight
    × IsWord a.queued_vet
    × IsWord a.supply
    × IsWord a.burned
    × IsWord a.withdrawable
    × IsWord a.cooldown

-- The texts of the results decode to the arrays and to the words.
abbrev pub Encodes :
    Abi
    → Answers
    → (creation validators balance total queued supply burned withdrawable cooldown : String)
    → Type 0
Encodes abi a creation validators balance total queued supply burned withdrawable cooldown =
    ((bytes : List ℕ) × (abi.decode validators ≡ ok bytes)
      × (abi.unpack_values bytes ≡ ok (arrays (columns a.rows))))
    × (abi.decode balance ≡ ok (word a.balance))
    × (abi.decode total ≡ ok (word a.total_vet ++ word a.total_weight))
    × (abi.decode queued ≡ ok (word a.queued_vet ++ word a.queued_weight))
    × (abi.decode supply ≡ ok (word a.supply))
    × (abi.decode burned ≡ ok (word a.burned))
    × (abi.decode withdrawable ≡ ok (word a.withdrawable))
    × (abi.decode cooldown ≡ ok (word a.cooldown))

abbrev pub result_of : String → CallResult
result_of text = record { text = text; reverted = false; vm_error = false }

-- Reading an information back: all of the contract's numbers but the queued weight, which is not kept.
abbrev pub Holds : Answers → StakerInformation → Type 0
Holds a s =
    (map row_of s.validations ≡ a.rows)
    × (s.contract_balance ≡ a.balance)
    × (s.total_vet ≡ a.total_vet)
    × (s.total_weight ≡ a.total_weight)
    × (s.queued_vet ≡ a.queued_vet)
    × (s.total_supply ≡ a.supply)
    × (s.total_burned ≡ a.burned)
    × (s.withdrawable_vet ≡ u64 a.withdrawable)
    × (s.cooldown_vet ≡ u64 a.cooldown)

unpack_info_lem :
    (abi : Abi) (a : Answers)
    (creation validators balance total queued supply burned withdrawable cooldown : String)
    → IsAnswers a
    → Encodes abi a creation validators balance total queued supply burned withdrawable cooldown
    → (s : StakerInformation) × (unpack_info abi (
          creation ∷ validators ∷ balance ∷ total ∷ queued ∷ supply ∷ burned ∷ withdrawable
          ∷ cooldown ∷ [])
        ≡ done s)
      × Holds a s
unfolding unpack_info ◌>>=◌
unpack_info_lem abi a creation validators balance total queued supply burned withdrawable cooldown
      (rows, b, t, w, q, s, u, d, c) ((bytes, dv, dp), db, dt, dq, ds, du, dd, dc) =
    let (vs, unpacked, back) = unpack_validators-row_of abi validators bytes a.rows dv dp rows in
    let first = slice_first (word a.total_vet) (word a.total_weight) (length-word a.total_vet) in
    let second =
      slice_second (word a.total_vet) (word a.total_weight) (length-word a.total_vet)
        (length-word a.total_weight) in
    let third = slice_first (word a.queued_vet) (word a.queued_weight) (length-word a.queued_vet) in
    (
      record {
        validations = vs;
        contract_balance = set_bytes (word a.balance);
        queued_vet = set_bytes (word a.queued_vet);
        total_vet = set_bytes (word a.total_vet);
        total_weight = set_bytes (word a.total_weight);
        total_supply = set_bytes (word a.supply);
        total_burned = set_bytes (word a.burned);
        cooldown_vet = u64 (set_bytes (word a.cooldown));
        withdrawable_vet = u64 (set_bytes (word a.withdrawable));
      },
      rw (unpacked, dt, first, second, dq, third, db, ds, du, dd, dc) refl,
      (
        back,
        set_bytes-word a.balance b,
        set_bytes-word a.total_vet t,
        set_bytes-word a.total_weight w,
        set_bytes-word a.queued_vet q,
        set_bytes-word a.supply s,
        set_bytes-word a.burned u,
        ap (λ n. u64 n) (set_bytes-word a.withdrawable d),
        ap (λ n. u64 n) (set_bytes-word a.cooldown c),
      ),
    )

-- Where the nine results of the call are not reverted, decode to the declared arrays, all of one length, with status
-- bytes below four and to 32-byte words of numbers below 2^256 (two words for each of the total and
-- the queued stake): FetchValidations neither fails nor panics, and what it returns determines every
-- element of the sixteen arrays, the balance, the total stake and weight, the queued stake, the total
-- supply and the burned amount, and, modulo 2^64, the withdrawable and the cooling stake.
pub fetch_validations-Holds :
    (abi : Abi) (a : Answers)
    (creation validators balance total queued supply burned withdrawable cooldown : String)
    → IsAnswers a
    → Encodes abi a creation validators balance total queued supply burned withdrawable cooldown
    → (s : StakerInformation) × (fetch_validations abi (
          ok (
            map result_of (
              creation ∷ validators ∷ balance ∷ total ∷ queued ∷ supply ∷ burned ∷ withdrawable
              ∷ cooldown ∷ [])))
        ≡ done s)
      × Holds a s
unfolding fetch_validations fetch_staker_info call_failed ◌>>=◌
fetch_validations-Holds abi a creation validators balance total queued supply burned withdrawable
      cooldown h e =
    let (s, unpacked, holds) =
      unpack_info_lem abi a creation validators balance total queued supply burned withdrawable
        cooldown h e in
    (s, rw unpacked refl, holds)
