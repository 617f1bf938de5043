-- ===== src/Pubsub/Fetcher.antt =====
-- pubsub/block_fetcher.go: one fetch of a block with its seeds, staker information and authority
-- nodes; the retries around it; and the cache in front of them. The node, the decoding of a raw
-- header and the LRU cache are not code of the program: they are parameters. What panics in the code
-- or in `FetchValidations` and `FetchAuthorityNodes` is `panicked`.
pub mod Seeds
pub mod Caching
use thorflux.Base.{
  ℕ, ◌+◌, ◌-◌, ◌*◌, ◌/◌, ◌%◌, ◌^◌, String, ◌≡◌, ◌⊎◌, Bool, Option, none, some, List, [], leb, ◌==◌,
  if◌then◌else◌, u32_mod, u32,
}
use thorflux.Chain.{Block, Result, ok, err, failure, Revision, at_number}
use thorflux.Types.{AuthorityNode, StakerInformation}
use thorflux.Stats.Outcome.{
  Outcome, done, failed, panicked, ◌>>=◌, check, check_call, returned, slice_from,
}
use thorflux.Retry.{Retried, retry_increasing}

-- The requests that one fetch makes, while the node answers them: blocks, the identifier in a block
-- summary, the raw block by identifier (status and body), the text that its JSON holds, the beta of the
-- header behind its first two characters, and what `FetchValidations` (Stats.Pos.Unpack) and
-- `FetchAuthorityNodes` (Stats.Slots.Blockchain) make of the answers of the two contracts.
pub record Node : Type 0 where
  pub expanded_block : Revision → Result Block
  pub block_id : Revision → Result ℕ
  pub raw_block : ℕ → Result (ℕ × String)
  pub unmarshal_raw : String → Result (List ℕ)
  pub decode_beta : List ℕ → Result (List ℕ)
  pub fetch_validations : ℕ → Outcome StakerInformation
  pub fetch_authority_nodes : ℕ → Outcome (List AuthorityNode)

pub record FetchResult : Type 0 where
  pub block : Block
  pub seed : List ℕ
  pub staker : Option StakerInformation
  pub auth_nodes : List AuthorityNode
  pub future_seed : List ℕ

-- What a fetcher is made with, and `thor.SeederInterval()`.
pub record Settings : Type 0 where
  pub hayabusa_forked_block : ℕ
  pub hayabusa_active_block : ℕ
  pub seeder_interval : ℕ

-- `binary.BigEndian.Uint32(id[:])`: the first 4 bytes of the 32.
unfoldable pub id_number : ℕ → ℕ
id_number id = id / 2 ^ 224 % u32_mod

-- `status != 200`.
unfoldable pub check_status : ℕ × String → Result String
check_status (status, body) =
    if status == 200 then ok body else err (failure "failed to fetch raw block")

-- The requests of `fetchSeed` for the seed block number; a raw block of less than two characters
-- panics.
unfoldable pub seed_of_number : Node → ℕ → Outcome (List ℕ)
unfolding check_status
seed_of_number node seed_num = do
  seed_id ← check "failed to fetch seed block" (node.block_id (at_number seed_num))
  answer ← check "failed to fetch raw block" (node.raw_block seed_id)
  body ← returned (check_status answer)
  raw ← check "failed to unmarshal raw block" (node.unmarshal_raw body)
  digits ← slice_from raw 2
  returned (node.decode_beta digits)

-- The seed block of a block with this number, if the number is past the second epoch's begin.
unfoldable pub seed_number : ℕ → ℕ → Option ℕ
seed_number interval block_num =
    if leb (block_num / interval) 1 then none else some ((block_num / interval - 1) * interval)

unfoldable pub seed_or_empty : Node → Option ℕ → Outcome (List ℕ)
seed_or_empty node none = done []
seed_or_empty node (some n) = seed_of_number node n

unfoldable pub fetch_seed : Settings → Node → ℕ → Outcome (List ℕ)
unfolding seed_number seed_or_empty
fetch_seed s node parent_id =
    seed_or_empty node (seed_number s.seeder_interval (u32 (id_number parent_id + 1)))

-- `(blockNum+1)%thor.SeederInterval() == 0`.
abbrev pub is_boundary : Settings → ℕ → Bool
is_boundary s block_num = u32 (block_num + 1) % s.seeder_interval == 0

unfoldable pub future_seed_of : Settings → Node → ℕ → Block → List ℕ → Outcome (List ℕ)
future_seed_of s node block_num b seed =
    if is_boundary s block_num
    then check_call "failed to fetch future seed" (fetch_seed s node b.id)
    else done seed

abbrev pub map_done {ℓ κ} : {A : Type ℓ} {B : Type κ} → (A → B) → Outcome A → Outcome B
map_done f (done a) = done (f a)
map_done f (failed e) = failed e
map_done f panicked = panicked

unfoldable pub staker_of : Settings → Node → ℕ → Block → Outcome (Option StakerInformation)
staker_of s node block_num b =
    if leb s.hayabusa_forked_block block_num
    then map_done some (check_call "failed to fetch staker info" (node.fetch_validations b.id))
    else done none

unfoldable pub auth_nodes_of : Settings → Node → ℕ → Block → Outcome (List AuthorityNode)
auth_nodes_of s node block_num b =
    if leb block_num s.hayabusa_active_block
    then check_call "failed to fetch auth nodes info" (node.fetch_authority_nodes b.id)
    else done []

-- The function that is retried.
unfoldable pub fetch_once : Settings → Node → ℕ → Outcome FetchResult
unfolding future_seed_of staker_of auth_nodes_of
fetch_once s node block_num = do
  b ← check "failed to fetch block" (node.expanded_block (at_number block_num))
  seed ← check_call "failed to fetch seed" (fetch_seed s node b.parent_id)
  future ← future_seed_of s node block_num b seed
  staker ← staker_of s node block_num b
  auth_nodes ← auth_nodes_of s node block_num b
  done (record {
    block = b;
    seed = seed;
    staker = staker;
    auth_nodes = auth_nodes;
    future_seed = future;
  })

-- What ends the retries: a panic does, as a success does, and an error does not.
abbrev pub attempt {ℓ} : {A : Type ℓ} → Outcome A → Result (Option A)
attempt (done a) = ok (some a)
attempt (failed e) = err e
attempt panicked = ok none

-- lru.Cache: `get` returns the cached value and the cache with the key moved to the front. What is
-- found was added under its key, and what was just added is found.
pub record LruCache (V : Type 0) : Type 1 where
  pub Cache : Type 0
  pub empty : Cache
  pub get : ℕ → Cache → Option V × Cache
  pub add : ℕ → V → Cache → Cache
  pub get-empty : (k : ℕ) → (get k empty).0 ≡ none
  pub get-get : (k j : ℕ) (c : Cache) → (get k (get j c).1).0 ≡ (get k c).0
  pub get-add_self : (k : ℕ) (v : V) (c : Cache) → (get k (add k v c)).0 ≡ some v
  pub get-add :
      (k j : ℕ) (v w : V) (c : Cache)
      → (get k (add j v c)).0 ≡ some w
      → ((k ≡ j) × (w ≡ v)) ⊎ ((get k c).0 ≡ some w)

-- 100 milliseconds, 30 seconds and 2 minutes, in milliseconds.
abbrev pub initial_delay : ℕ
initial_delay = 100

abbrev pub max_delay : ℕ
max_delay = 30_000

abbrev pub max_wait_time : ℕ
max_wait_time = 120_000

module _ (lru : LruCache FetchResult) where
  open lru use {Cache, get, add}

  -- A success is stored, an error is returned, a panic goes on.
  unfoldable pub store_result :
      ℕ → Cache → Option (Retried (Option FetchResult)) → Option (Outcome FetchResult × Cache)
  store_result block_num c none = none
  store_result block_num c (some (sleeps, ok (some r))) = some (done r, add block_num r c)
  store_result block_num c (some (sleeps, ok none)) = some (panicked, c)
  store_result block_num c (some (sleeps, err e)) = some (failed e, c)

  -- `FetchBlock`, inside the single flight of its key. `nodes i` is the node at the i-th attempt and
  -- `elapsed i` the time at the check after it, in milliseconds.
  unfoldable pub fetch_block :
      Settings
      → Cache
      → ℕ
      → (nodes : ℕ → Node) (elapsed : ℕ → ℕ) (fuel : ℕ) → Option (Outcome FetchResult × Cache)
  unfolding store_result
  fetch_block s c block_num nodes elapsed fuel =
      let (found, c') = get block_num c in
      elim found [
        | some r ↦ some (done r, c')
        | none ↦ store_result block_num c' (
            retry_increasing (λ i. attempt (fetch_once s (nodes i) block_num)) elapsed initial_delay
              max_delay max_wait_time fuel)
      ]
