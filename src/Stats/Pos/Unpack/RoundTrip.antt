-- ===== src/Stats/Pos/Unpack/RoundTrip.antt =====
-- What is read back from the arrays and words that the staker contract returns.
use thorflux.Base.{
  ℕ, zero, suc, ◌+◌, ◌-◌, ◌<◌, String, ◌≡◌, refl, sym, ap, Option, none, some, List, [], ◌∷◌, map,
  arith, length, get_elem?, All, length-map,
}
use thorflux.Base.Int.{pos, pos_part, ◌-ℤ◌, sub_ℕ}
use thorflux.Chain.{ok}
use thorflux.Types.{Status, Validation}
use thorflux.Stats.Outcome.{drop, ◌>>=◌, done, at}
use thorflux.Stats.Pos.Arrays.{AbiArray, addresses, uint8s, bools, uint32s, big_ints, Columns}
use thorflux.Stats.Pos.Unpack.{
  Row, row_at, status_of, max_uint32, block_unless_max, to_validation, rounds_from, Abi,
  unpack_validators,
}

abbrev pub columns : List Row → Columns
columns rs = record {
  masters = map (λ (r : Row). r.master) rs;
  endorsors = map (λ (r : Row). r.endorsor) rs;
  statuses = map (λ (r : Row). r.status) rs;
  onlines = map (λ (r : Row). r.online) rs;
  offline_blocks = map (λ (r : Row). r.offline_block) rs;
  staking_period_lengths = map (λ (r : Row). r.staking_period_length) rs;
  start_blocks = map (λ (r : Row). r.start_block) rs;
  exit_blocks = map (λ (r : Row). r.exit_block) rs;
  completed_periods = map (λ (r : Row). r.completed_periods) rs;
  validator_locked_vets = map (λ (r : Row). r.validator_locked_vet) rs;
  validator_locked_weights = map (λ (r : Row). r.validator_locked_weight) rs;
  delegators_stakes = map (λ (r : Row). r.delegators_stake) rs;
  validator_queued_stakes = map (λ (r : Row). r.validator_queued_stake) rs;
  total_queued_stakes = map (λ (r : Row). r.total_queued_stake) rs;
  exiting_stakes = map (λ (r : Row). r.exiting_stake) rs;
  next_period_weights = map (λ (r : Row). r.next_period_weight) rs;
}

-- The values of the ABI library for them, in the order and of the types that the contract declares.
abbrev pub arrays : Columns → List AbiArray
arrays c =
    addresses c.masters
    ∷ addresses c.endorsors
    ∷ uint8s c.statuses
    ∷ bools c.onlines
    ∷ uint32s c.offline_blocks
    ∷ uint32s c.staking_period_lengths
    ∷ uint32s c.start_blocks
    ∷ uint32s c.exit_blocks
    ∷ uint32s c.completed_periods
    ∷ big_ints c.validator_locked_vets
    ∷ big_ints c.validator_locked_weights
    ∷ big_ints c.delegators_stakes
    ∷ big_ints c.validator_queued_stakes
    ∷ big_ints c.total_queued_stakes
    ∷ big_ints c.exiting_stakes
    ∷ big_ints c.next_period_weights
    ∷ []

abbrev pub byte_of : Status → ℕ
byte_of Status.unknown = 0
byte_of Status.queued = 1
byte_of Status.active = 2
byte_of Status.exit = 3

abbrev pub block_or_max : Option ℕ → ℕ
block_or_max none = max_uint32
block_or_max (some b) = b

-- The row that a validation was read from.
abbrev pub row_of : Validation → Row
row_of v = record {
  master = v.address;
  endorsor = v.endorser;
  status = byte_of v.status;
  online = v.online;
  offline_block = block_or_max v.offline_block;
  staking_period_length = v.period;
  start_block = v.start_block;
  exit_block = block_or_max v.exit_block;
  completed_periods = v.completed_periods;
  validator_locked_vet = v.total_locked_stake - v.delegator_stake;
  validator_locked_weight = v.total_locked_weight;
  delegators_stake = v.delegator_stake;
  validator_queued_stake = pos_part (pos v.total_queued_stake -ℤ v.delegator_queued_stake);
  total_queued_stake = v.total_queued_stake;
  exiting_stake = v.total_exiting_stake;
  next_period_weight = v.next_period_weight;
}

byte_of-status_of : (b : ℕ) → b < 4 → byte_of (status_of b) ≡ b
unfolding status_of
byte_of-status_of b h = ground arith

block_or_max-block_unless_max : (b : ℕ) → block_or_max (block_unless_max b) ≡ b
unfolding block_unless_max
block_or_max-block_unless_max b = ground arith

sub_back : (t q : ℕ) → pos_part (pos t -ℤ sub_ℕ t q) ≡ q
unfolding ◌-ℤ◌
sub_back t q = ground arith

row_of-to_validation : (r : Row) → r.status < 4 → row_of (to_validation r) ≡ r
unfolding to_validation
row_of-to_validation r h =
    let status = byte_of-status_of r.status h in
    let offline = block_or_max-block_unless_max r.offline_block in
    let exit = block_or_max-block_unless_max r.exit_block in
    let locked : r.validator_locked_vet + r.delegators_stake - r.delegators_stake
        ≡ r.validator_locked_vet =
      omega arith in
    let queued = sub_back r.total_queued_stake r.validator_queued_stake in
    λ i. record r {
      status = status i;
      offline_block = offline i;
      exit_block = exit i;
      validator_locked_vet = locked i;
      validator_queued_stake = queued i;
    }

at-map {ℓ} :
    {A B : Type ℓ} (f : A → B) (xs : List A) (i : ℕ) {x : A}
    → get_elem? xs i ≡ some x
    → at (map f xs) i ≡ done (f x)
at-map f [] i h = cc
at-map f (x ∷ xs) zero h = cc
at-map f (x ∷ xs) (suc i) h = at-map f xs i h

row_at-columns :
    (rs : List Row) (i : ℕ) (r : Row) → get_elem? rs i ≡ some r → row_at (columns rs) i ≡ done r
unfolding row_at ◌>>=◌
row_at-columns rs i r h = simp (
  at-map (λ (r : Row). r.master) rs i h,
  at-map (λ (r : Row). r.endorsor) rs i h,
  at-map (λ (r : Row). r.status) rs i h,
  at-map (λ (r : Row). r.online) rs i h,
  at-map (λ (r : Row). r.offline_block) rs i h,
  at-map (λ (r : Row). r.staking_period_length) rs i h,
  at-map (λ (r : Row). r.start_block) rs i h,
  at-map (λ (r : Row). r.exit_block) rs i h,
  at-map (λ (r : Row). r.completed_periods) rs i h,
  at-map (λ (r : Row). r.validator_locked_vet) rs i h,
  at-map (λ (r : Row). r.validator_locked_weight) rs i h,
  at-map (λ (r : Row). r.delegators_stake) rs i h,
  at-map (λ (r : Row). r.validator_queued_stake) rs i h,
  at-map (λ (r : Row). r.total_queued_stake) rs i h,
  at-map (λ (r : Row). r.exiting_stake) rs i h,
  at-map (λ (r : Row). r.next_period_weight) rs i h,
)

-- The element at an index below the length, and what follows it.
drop_step {ℓ} :
    {A : Type ℓ} (xs : List A) (i n : ℕ)
    → i + suc n ≡ length xs
    → (x : A) × (get_elem? xs i ≡ some x) × (drop i xs ≡ x ∷ drop (suc i) xs)
drop_step [] i n h = absurd (omega arith)
drop_step (x ∷ xs) zero n h = (x, refl, refl)
drop_step (x ∷ xs) (suc i) n h = drop_step xs i n (omega arith)

drop_all {ℓ} : {A : Type ℓ} (xs : List A) (i : ℕ) → i + 0 ≡ length xs → drop i xs ≡ []
drop_all [] zero h = refl
drop_all [] (suc i) h = refl
drop_all (x ∷ xs) zero h = absurd (omega arith)
drop_all (x ∷ xs) (suc i) h = drop_all xs i (omega arith)

rounds_from-columns :
    (rs : List Row) (i n : ℕ)
    → i + n ≡ length rs
    → rounds_from (columns rs) i n ≡ done (map to_validation (drop i rs))
unfolding rounds_from ◌>>=◌
rounds_from-columns rs i zero h = ap done (sym (ap (map to_validation) (drop_all rs i h)))
rounds_from-columns rs i (suc n) h =
    let (r, found, step) = drop_step rs i n h in
    let next : i + 1 ≡ suc i = omega arith in
    let rest = rw next at (rounds_from-columns rs (i + 1) n (omega arith)) in
    rw (row_at-columns rs i r found, next, rest, step) refl

map-row_of :
    (rs : List Row) → All (λ (r : Row). r.status < 4) rs → map row_of (map to_validation rs) ≡ rs
map-row_of [] h = refl
map-row_of (r ∷ rs) h = λ i. row_of-to_validation r h.0 i ∷ map-row_of rs h.1 i

-- Where the answer decodes to the sixteen declared arrays, all of the same length, one element for each validator, and
-- every status byte is below four: unpackValidators neither fails nor panics, it returns one
-- validation for each index in order, and the validations determine every element of the arrays.
pub unpack_validators-row_of :
    (abi : Abi) (text : String) (bytes : List ℕ) (rs : List Row)
    → abi.decode text ≡ ok bytes
    → abi.unpack_values bytes ≡ ok (arrays (columns rs))
    → All (λ (r : Row). r.status < 4) rs
    → (vs : List Validation) × (unpack_validators abi text ≡ done vs) × (map row_of vs ≡ rs)
unfolding unpack_validators ◌>>=◌
unpack_validators-row_of abi text bytes rs decoded unpacked statuses =
    let counted = length-map (λ (r : Row). r.master) rs in
    let rounds =
      rounds_from-columns rs 0 (length (map (λ (r : Row). r.master) rs)) (omega (arith, counted)) in
    (map to_validation rs, rw (decoded, unpacked) rounds, map-row_of rs statuses)
