-- ===== src/Database.antt =====
-- `Latest` of influxdb/influxdb.go. What the database answers to the query is given.
use thorflux.Base.{ℕ, Option, none, some, List, [], ◌∷◌, u32}
use thorflux.Chain.{Error, failure, Result, ok, err}

-- The column `_value` of a record: nil, a uint64, or of another type.
pub data Value : Type 0 where
  missing other_type : Value
  unsigned : ℕ → Value

pub record QueryResult : Type 0 where
  pub error : Option Error
  pub records : List Value

unfoldable pub block_number_in : Value → Result ℕ
block_number_in missing = ok 0
block_number_in other_type = err (failure "unexpected type for block number")
block_number_in (unsigned n) = ok (u32 n)

-- `res.Next()`.
unfoldable pub first_number : List Value → Result ℕ
unfolding block_number_in
first_number [] = ok 0
first_number (v ∷ vs) = block_number_in v

unfoldable pub unless_error : Option Error → List Value → Result ℕ
unfolding first_number
unless_error (some e) vs = err e
unless_error none vs = first_number vs

unfoldable pub latest : Result QueryResult → Result ℕ
unfolding unless_error
latest (err e) = err e
latest (ok r) = unless_error r.error r.records
