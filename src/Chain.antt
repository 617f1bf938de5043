-- ===== src/Chain.antt =====
-- What the program reads from a node: blocks with their transactions, errors, revisions, and the
-- client (thorclient), whose answers are a parameter. Identifiers, addresses and topics are the
-- numbers that their bytes spell, big-endian.
use thorflux.Base.{ℕ, Bool, Option, List, String, ◌≡◌, refl, ◌⊎◌, inl, inr}

pub record Transfer : Type 0 where
  pub sender : ℕ
  pub recipient : ℕ
  pub amount : ℕ

pub record LogEvent : Type 0 where
  pub address : ℕ
  pub topics : List ℕ
  pub payload : String

pub record Output : Type 0 where
  pub events : List LogEvent
  pub transfers : List Transfer

-- `tx.TypeLegacy` and `tx.TypeDynamicFee`; any other type byte is `other`.
pub data TxType : Type 0 where
  legacy dynamic_fee : TxType
  other : ℕ → TxType

-- A pointer that may be nil is an option.
pub record Tx : Type 0 where
  pub tx_type : TxType
  pub clause_count : ℕ
  pub gas_price_coef : Option ℕ
  pub max_priority_fee : Option ℕ
  pub reward : Option ℕ
  pub outputs : List Output

pub record Block : Type 0 where
  pub number : ℕ
  pub id : ℕ
  pub parent_id : ℕ
  pub timestamp : ℕ
  pub signer : ℕ
  pub gas_used : ℕ
  pub gas_limit : ℕ
  pub size : ℕ
  pub total_score : ℕ
  pub base_fee : Option ℕ
  pub com_bit : Bool
  pub transactions : List Tx

-- `httpclient.ErrNotFound`, any other failure, and `fmt.Errorf("…: %w", err)`.
pub data Error : Type 0 where
  not_found : Error
  failure : String → Error
  wrapped : String → Error → Error

pub data Result {ℓ} (A : Type ℓ) : Type ℓ where
  ok : A → Result A
  err : Error → Result A

infixl 5 ◌>>=◌
abbrev pub ◌>>=◌ {ℓ κ} : {A : Type ℓ} {B : Type κ} → Result A → (A → Result B) → Result B
ok a >>= f = f a
err e >>= f = err e

-- `if err != nil { return fmt.Errorf(msg, err) }`.
abbrev pub wrap {ℓ} : {A : Type ℓ} → String → Result A → Result A
wrap msg (ok a) = ok a
wrap msg (err e) = err (wrapped msg e)

-- The revision that a request names.
pub data Revision : Type 0 where
  at_number : ℕ → Revision
  at_id : ℕ → Revision
  finalized best justified : Revision

-- The answers of a node while one call of the program runs.
pub record Client : Type 0 where
  pub expanded_block : Revision → Result Block

-- Inversion of a successful step, and of a wrapped one.
pub >>=-eq-ok {ℓ κ} :
    {A : Type ℓ} {B : Type κ} (r : Result A) (next : A → Result B) {out : B}
    → (r >>= next) ≡ ok out
    → (found : A) × (r ≡ ok found) × (next found ≡ ok out)
>>=-eq-ok (ok found) next e = (found, refl, e)
>>=-eq-ok (err x) next e = cc

pub wrap-eq-ok {ℓ} :
    {A : Type ℓ} (msg : String) (m : Result A) {a : A} → wrap msg m ≡ ok a → m ≡ ok a
wrap-eq-ok msg (ok a) h = h
wrap-eq-ok msg (err e) h = cc

pub ok-injective {ℓ} : {A : Type ℓ} {a b : A} → ok a ≡ ok b → a ≡ b
ok-injective h = cc

pub Result-cases {ℓ} :
    {A : Type ℓ} (r : Result A) → ((a : A) × (r ≡ ok a)) ⊎ ((e : Error) × (r ≡ err e))
Result-cases (ok a) = inl (a, refl)
Result-cases (err e) = inr (e, refl)
