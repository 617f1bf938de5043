-- ===== src/Stats/Prices.antt =====
-- stats/priceapi/priceapi.go. A time is the number of nanoseconds since Go's zero time; the clock and
-- the answers of the price feed are given. The lock makes the calls of `Write` follow one another. A
-- failure to delete old points is only logged.
pub mod Spacing
use thorflux.Base.{ℕ, ◌-◌, ◌*◌, ◌^◌, min, List, [], ◌∷◌, ◌++◌, ltb, if◌then◌else◌}
use thorflux.Chain.{Result, ok, err}

abbrev pub minutes : ℕ → ℕ
minutes n = n * 60_000_000_000

-- `PriceAPI`, without the clients.
pub record PriceApi : Type 0 where
  pub last_update : ℕ

-- `New`.
abbrev pub new_price_api : PriceApi
new_price_api = record { last_update = 0 }

-- The readings of the clock and of the feed in one call, in the order in which they are made.
pub record Readings : Type 0 where
  pub asked : ℕ
  pub vet_value : Result ℕ
  pub vtho_value : Result ℕ
  pub stop_read : ℕ
  pub start_read : ℕ
  pub updated : ℕ

-- The prices are the values of the feed in units of 10^12.
pub record PricePoint : Type 0 where
  pub vet_price : ℕ
  pub vtho_price : ℕ
  pub time : ℕ

-- A request to delete the measurement's points of a span of time.
pub record Deletion : Type 0 where
  pub start : ℕ
  pub stop : ℕ

pub record Written : Type 0 where
  pub state : PriceApi
  pub deletions : List Deletion
  pub points : List PricePoint

-- `time.Since`, which stops at the greatest duration; a duration below zero is less than five minutes,
-- as zero is.
unfoldable pub since : (now time : ℕ) → ℕ
since now time = min (now - time) (2 ^ 63 - 1)

abbrev pub unchanged : PriceApi → Written
unchanged p = record { state = p; deletions = []; points = [] }

unfoldable pub with_prices : Readings → (vet vtho : ℕ) → Written
with_prices r vet vtho = record {
  state = record { last_update = r.updated };
  deletions =
      record { start = r.start_read - minutes (60 * 24 * 365); stop = r.stop_read - minutes 20 }
      ∷ [];
  points = record { vet_price = vet; vtho_price = vtho; time = r.updated } ∷ [];
}

unfoldable pub with_vtho : PriceApi → Readings → (vet : ℕ) → Result ℕ → Written
unfolding with_prices
with_vtho p r vet (err e) = unchanged p
with_vtho p r vet (ok vtho) = with_prices r vet vtho

unfoldable pub with_vet : PriceApi → Readings → Result ℕ → Written
unfolding with_vtho
with_vet p r (err e) = unchanged p
with_vet p r (ok vet) = with_vtho p r vet r.vtho_value

-- `Write`.
unfoldable pub write_prices : PriceApi → Readings → Written
unfolding since with_vet
write_prices p r =
    if ltb (since r.asked p.last_update) (minutes 5) then unchanged p else with_vet p r r.vet_value

-- The calls of `Write` for a sequence of blocks: all points, in order, and all deletions.
unfoldable pub write_all : PriceApi → List Readings → Written
unfolding write_prices
write_all p [] = unchanged p
write_all p (r ∷ rs) =
    let first = write_prices p r in
    let later = write_all first.state rs in
    record {
      state = later.state;
      deletions = first.deletions ++ later.deletions;
      points = first.points ++ later.points;
    }
