-- ===== src/Stats/Authority/Decode.antt =====
-- `listAllCandidates` of stats/authority/list.go: reading the hexadecimal answer of the contract. A
-- text is the list of its characters' codes. `thor.ParseAddress` is a parameter.
pub mod Digits
pub mod RoundTrip
use thorflux.Base.{
  ℕ, zero, suc, ◌+◌, ◌-◌, ◌*◌, Bool, true, false, not, ◌&&◌, Option, none, some, List, [], ◌∷◌, leb,
  ◌==◌, if◌then◌else◌, u64,
}
use thorflux.Chain.{Error, failure, Result, ok, err}
use thorflux.Stats.Outcome.{
  Outcome, done, failed, panicked, ◌>>=◌, returned, deref, at, slice, slice_from,
}
use thorflux.Stats.Authority.{Candidate}

-- A hexadecimal digit.
unfoldable pub digit : ℕ → Option ℕ
digit c =
    if leb b'0' c && leb c b'9'
    then some (c - b'0')
    else if leb b'a' c && leb c b'f'
    then some (c - b'a' + 10)
    else if leb b'A' c && leb c b'F'
    then some (c - b'A' + 10)
    else none

unfoldable pub digits_from : ℕ → List ℕ → Option ℕ
digits_from n [] = some n
digits_from n (c ∷ cs) = elim (digit c) [ none ↦ none | some d ↦ digits_from (n * 16 + d) cs ]

-- The sign and the magnitude of a big.Int.
abbrev pub signed : Bool → Option ℕ → Option (Bool × ℕ)
signed negative none = none
signed negative (some n) = some (negative, n)

abbrev pub some_digits : List ℕ → Option ℕ
some_digits [] = none
some_digits (c ∷ cs) = digits_from 0 (c ∷ cs)

-- `big.Int.SetString(s, 16)`.
unfoldable pub set_string : List ℕ → Option (Bool × ℕ)
unfolding digits_from
set_string [] = none
set_string (c ∷ cs) =
    if c == b'-'
    then signed true (some_digits cs)
    else if c == b'+'
    then signed false (some_digits cs)
    else signed false (digits_from 0 (c ∷ cs))

abbrev pub next_byte : (n : ℕ) → Option ℕ → Option ℕ → Option ℕ
next_byte n none low = none
next_byte n (some h) none = none
next_byte n (some h) (some l) = some (n * 256 + (h * 16 + l))

-- `hex.DecodeString`, whose error is ignored: the number of the bytes before the first bad pair.
unfoldable pub decode_string : ℕ → List ℕ → ℕ
unfolding digit
decode_string n [] = n
decode_string n (a ∷ []) = n
decode_string n (a ∷ b ∷ cs) = elim (next_byte n (digit a) (digit b)) [
  | none ↦ n
  | some m ↦ decode_string m cs
]

abbrev pub same_text : List ℕ → List ℕ → Bool
same_text [] [] = true
same_text [] (b ∷ bs) = false
same_text (a ∷ as_) [] = false
same_text (a ∷ as_) (b ∷ bs) = (a == b) && same_text as_ bs

abbrev pub zeros : ℕ → List ℕ
zeros zero = []
zeros (suc n) = b'0' ∷ zeros n

-- One round: the candidate and what is left of the data.
unfoldable pub read_candidate :
    (parse_address : List ℕ → Option ℕ) → List ℕ → Outcome (Candidate × List ℕ)
unfolding decode_string
read_candidate parse_address text = do
  master_text ← slice text 24 64
  master ← deref (parse_address master_text)
  after_master ← slice_from text 64
  endorsor_text ← slice after_master 24 64
  endorsor ← deref (parse_address endorsor_text)
  after_endorsor ← slice_from after_master 64
  identity ← slice after_endorsor 0 64
  after_identity ← slice_from after_endorsor 64
  active ← slice after_identity 0 64
  rest ← slice_from after_identity 64
  done (
    record {
      master = master;
      endorsor = endorsor;
      identity = decode_string 0 identity;
      active = not (same_text active (zeros 64));
    },
    rest,
  )

unfoldable pub read_candidates :
    (parse_address : List ℕ → Option ℕ) → (amount : ℕ) → List ℕ → Outcome (List Candidate)
unfolding read_candidate
read_candidates parse_address zero text = done []
read_candidates parse_address (suc n) text = do
  first ← read_candidate parse_address text
  rest ← read_candidates parse_address n first.1
  done (first.0 ∷ rest)

-- `valueType.Cmp(big.NewInt(32)) != 0`; SetString returned nil for `none`, and Cmp panics.
unfoldable pub check_type : Option (Bool × ℕ) → Outcome (Unit {0})
check_type none = panicked
check_type (some (negative, n)) =
    if not negative && (n == 32)
    then done tt
    else failed (failure "wrong type returned by the contract")

-- Behind the call: the texts of its results.
unfoldable pub list_all_candidates :
    (parse_address : List ℕ → Option ℕ) → Result (List (List ℕ)) → Outcome (List Candidate)
unfolding set_string check_type read_candidates
list_all_candidates parse_address answer = do
  response ← returned answer
  second ← at response 1
  text ← slice_from second 2
  type_text ← slice text 0 64
  checked ← check_type (set_string type_text)
  after_type ← slice_from text 64
  amount_text ← slice after_type 0 64
  amount ← deref (set_string amount_text)
  rest ← slice_from after_type 64
  read_candidates parse_address (u64 amount.1) rest
