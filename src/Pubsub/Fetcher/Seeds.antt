-- ===== src/Pubsub/Fetcher/Seeds.antt =====
-- Seeds and the rest of what one fetch of pubsub/block_fetcher.go returns.
use thorflux.Base.{
  ℕ, ◌+◌, ◌-◌, ◌*◌, ◌/◌, ◌%◌, ◌≤◌, ◌<◌, String, ◌≡◌, sym, ap, ◌∙◌, ◌≢◌, inl, inr, false, Option,
  none, some, List, [], arith, leb, if◌then◌else◌, Bool-cases, u32_mod, u32,
}
use native.Mathlib.Nat.{div-mul-le_self, lt-div-mul-add, mul-mod_left, div-eq_of_lt-le}
use thorflux.Chain.{Block, ok, at_number}
use thorflux.Stats.Outcome.{
  Outcome, done, failed, panicked, check, check_call, >>=-eq-done, check-done, check_call-done,
  done-injective,
}
use thorflux.Types.{AuthorityNode, StakerInformation}
use thorflux.Pubsub.Fetcher.{
  Node, FetchResult, Settings, id_number, seed_number, seed_or_empty, fetch_once, fetch_seed,
  is_boundary, map_done, future_seed_of, staker_of, auth_nodes_of,
}

-- The parts of a successful fetch, as answers of the node: the block of that number; the seed behind
-- its parent; the seed behind the block itself where the next block begins an epoch, and else the same
-- seed; staker information from the fork on and none before; the authority nodes up to the activation
-- and none after.
pub record Fetched (s : Settings) (node : Node) (n : ℕ) (r : FetchResult) : Type 0 where
  pub block_of : node.expanded_block (at_number n) ≡ ok r.block
  pub seed_of : fetch_seed s node r.block.parent_id ≡ done r.seed
  pub future_of :
      (if is_boundary s n then fetch_seed s node r.block.id else done r.seed) ≡ done r.future_seed
  pub staker_of_fork :
      (if leb s.hayabusa_forked_block n
        then map_done some (node.fetch_validations r.block.id)
        else done none)
      ≡ done r.staker
  pub auth_of :
      (if leb n s.hayabusa_active_block then node.fetch_authority_nodes r.block.id else done [])
      ≡ done r.auth_nodes

future_seed_of-ok :
    (s : Settings) (node : Node) (n : ℕ) (b : Block) (seed future : List ℕ)
    → future_seed_of s node n b seed ≡ done future
    → (if is_boundary s n then fetch_seed s node b.id else done seed) ≡ done future
unfolding future_seed_of
future_seed_of-ok s node n b seed future h = elim (Bool-cases (is_boundary s n)) [
  | inl e ↦ rw e (check_call-done _ _ (rw e at h))
  | inr e ↦ rw e (rw e at h)
]

map_done-check_call :
    {A B : Type 0} (f : A → B) (msg : String) (m : Outcome A) {b : B}
    → map_done f (check_call msg m) ≡ done b
    → map_done f m ≡ done b
map_done-check_call f msg (done a) h = h
map_done-check_call f msg (failed e) h = cc
map_done-check_call f msg panicked h = cc

staker_of-ok :
    (s : Settings) (node : Node) (n : ℕ) (b : Block) (staker : Option StakerInformation)
    → staker_of s node n b ≡ done staker
    → (if leb s.hayabusa_forked_block n
        then map_done some (node.fetch_validations b.id)
        else done none)
      ≡ done staker
unfolding staker_of
staker_of-ok s node n b staker h = elim (Bool-cases (leb s.hayabusa_forked_block n)) [
  | inl e ↦ rw e (map_done-check_call some _ (node.fetch_validations b.id) (rw e at h))
  | inr e ↦ rw e (rw e at h)
]

auth_nodes_of-ok :
    (s : Settings) (node : Node) (n : ℕ) (b : Block) (nodes : List AuthorityNode)
    → auth_nodes_of s node n b ≡ done nodes
    → (if leb n s.hayabusa_active_block then node.fetch_authority_nodes b.id else done [])
      ≡ done nodes
unfolding auth_nodes_of
auth_nodes_of-ok s node n b nodes h = elim (Bool-cases (leb n s.hayabusa_active_block)) [
  | inl e ↦ rw e (check_call-done _ _ (rw e at h))
  | inr e ↦ rw e (rw e at h)
]

-- A fetch that succeeds returns the node's answers to the requests for that block number: its block,
-- its seed and future seed, its staker information and authority nodes, each in its range of numbers.
pub fetch_once-Fetched :
    (s : Settings) (node : Node) (n : ℕ) (r : FetchResult)
    → fetch_once s node n ≡ done r
    → Fetched s node n r
unfolding fetch_once
fetch_once-Fetched s node n r h =
    let (b, eb, h1) =
      >>=-eq-done (check "failed to fetch block" (node.expanded_block (at_number n))) _ h in
    let (seed, es, h2) =
      >>=-eq-done (check_call "failed to fetch seed" (fetch_seed s node b.parent_id)) _ h1 in
    let (future, ef, h3) = >>=-eq-done (future_seed_of s node n b seed) _ h2 in
    let (staker, ek, h4) = >>=-eq-done (staker_of s node n b) _ h3 in
    let (nodes, ea, h5) = >>=-eq-done (auth_nodes_of s node n b) _ h4 in
    let whole : record {
      block = b;
      seed = seed;
      staker = staker;
      auth_nodes = nodes;
      future_seed = future;
    }
        ≡ r =
      done-injective h5 in
    rw (← whole) (record {
      block_of = check-done _ _ eb;
      seed_of = check_call-done _ _ es;
      future_of = future_seed_of-ok s node n b seed future ef;
      staker_of_fork = staker_of-ok s node n b staker ek;
      auth_of = auth_nodes_of-ok s node n b nodes ea;
    })

-- Where a seed is looked up at all, the seed block lies between one and two epochs before the block:
-- it is the block at which the epoch before the block's own begins.
seed_number_bounds :
    (interval n m : ℕ)
    → 0 < interval
    → seed_number interval n ≡ some m
    → (m + interval ≤ n) × (n < m + interval + interval) × (m % interval ≡ 0)
unfolding seed_number
seed_number_bounds interval n m pos h = elim (Bool-cases (leb (n / interval) 1)) [
  | inl low ↦ absurd (ground arith)
  | inr high ↦
      let k : ℕ = n / interval - 1 in
      let e : m ≡ k * interval = ground arith in
      let q : n / interval ≡ k + 1 = ground arith in
      let product : n / interval * interval ≡ (k + 1) * interval = ap (λ t. t * interval) q in
      (
        omega (arith, div-mul-le_self n interval),
        omega (arith, lt-div-mul-add {a = n} pos),
        rw e (mul-mod_left k interval),
      )
]

div_same_epoch :
    (interval n : ℕ) → 0 < interval → (n + 1) % interval ≢ 0 → (n + 1) / interval ≡ n / interval
div_same_epoch interval n pos h =
    div-eq_of_lt-le interval (omega (arith, div-mul-le_self n interval)) below
  where
    multiple : n + 1 ≡ (n / interval + 1) * interval → (n + 1) % interval ≡ 0
    multiple e = ap (λ t. t % interval) e ∙ mul-mod_left (n / interval + 1) interval

    below : n + 1 < (n / interval + 1) * interval
    below = ground (arith, lt-div-mul-add {a = n} pos, multiple)

seed_number_same_epoch :
    (interval n : ℕ)
    → 0 < interval
    → (n + 1) % interval ≢ 0
    → seed_number interval (n + 1) ≡ seed_number interval n
unfolding seed_number
seed_number_same_epoch interval n pos h = rw (div_same_epoch interval n pos h)

fetch_seed_same_epoch :
    (s : Settings) (node : Node) (n parent id : ℕ)
    → 0 < s.seeder_interval
    → n + 1 < u32_mod
    → id_number parent + 1 ≡ n
    → id_number id ≡ n
    → is_boundary s n ≡ false
    → fetch_seed s node id ≡ fetch_seed s node parent
unfolding fetch_seed
fetch_seed_same_epoch s node n parent id pos lt parent_num num inside = ap (seed_or_empty node) (
    ap (seed_number s.seeder_interval) wrap_id
    ∙ seed_number_same_epoch s.seeder_interval n pos not_edge
    ∙ ap (seed_number s.seeder_interval) (sym wrap_parent))
  where
    wrap_id : u32 (id_number id + 1) ≡ n + 1
    wrap_id = omega arith

    wrap_parent : u32 (id_number parent + 1) ≡ n
    wrap_parent = omega arith

    same : u32 (n + 1) ≡ n + 1
    same = omega arith

    not_edge : (n + 1) % s.seeder_interval ≢ 0
    not_edge = ground (arith, same)

-- The seed that a block announces for its successor is the seed that the successor is fetched
-- with, at an epoch's end and elsewhere, if both fetches succeed at the same node, the two blocks
-- are linked, their identifiers carry their numbers, and the numbers are uint32.
pub fetch_once_next_seed :
    (s : Settings) (node : Node) (n : ℕ) (r next : FetchResult)
    → 0 < s.seeder_interval
    → n + 1 < u32_mod
    → id_number r.block.parent_id + 1 ≡ n
    → id_number r.block.id ≡ n
    → next.block.parent_id ≡ r.block.id
    → fetch_once s node n ≡ done r
    → fetch_once s node (n + 1) ≡ done next
    → r.future_seed ≡ next.seed
unfolding fetch_seed
fetch_once_next_seed s node n r next pos lt parent_num num linked h h' =
    elim (Bool-cases (is_boundary s n)) [
      | inl edge ↦ done-injective (sym (rw edge at f.future_of) ∙ seed_same)
      | inr inside ↦ done-injective (
          sym (rw inside at f.future_of)
          ∙ sym f.seed_of
          ∙ sym (fetch_seed_same_epoch s node n _ _ pos lt parent_num num inside)
          ∙ seed_same)
    ]
  where
    f : Fetched s node n r
    f = fetch_once-Fetched s node n r h

    g : Fetched s node (n + 1) next
    g = fetch_once-Fetched s node (n + 1) next h'

    -- The successor's seed is looked up behind the block itself.
    seed_same : fetch_seed s node r.block.id ≡ done next.seed
    seed_same = rw linked at g.seed_of
