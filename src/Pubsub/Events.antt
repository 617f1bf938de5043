-- ===== src/Pubsub/Events.antt =====
-- pubsub/event_block.go and the events of pubsub/publisher.go. The fetcher behind the service is an
-- interface, which pubsub/block_fetcher.go fills.
pub mod Complete
pub mod Source
use thorflux.Base.{ℕ, ◌-◌, ◌≡◌, ◌≢◌, Option, none, some, List, [], ltb, leb, if◌then◌else◌}
use thorflux.Chain.{Block, Error, wrapped}
use thorflux.Types.{AuthorityNode, StakerInformation, HayabusaStatus}
use thorflux.Stats.Outcome.{Outcome, done, failed, panicked}
use thorflux.Pubsub.Fetcher.{Node, FetchResult, Settings}
use thorflux.Pubsub.Fetcher.Caching.{Comes}

pub record ForkEvent : Type 0 where
  pub best : Block
  pub finalized : Block
  pub side_chain : Block

-- `fork` is none where `Fork.Occurred` is false.
pub record BlockEvent : Type 0 where
  pub fork : Option ForkEvent
  pub block : Block
  pub prev : Option Block
  pub hayabusa_status : HayabusaStatus
  pub staker : Option StakerInformation
  pub parent_staker : Option StakerInformation
  pub seed : List ℕ
  pub auth_nodes : List AuthorityNode
  pub parent_auth_nodes : List AuthorityNode
  pub future_seed : List ℕ

-- A source of fetched blocks: its state, an invariant of it, the nodes that it asks, and what a fetch
-- promises.
pub record BlockSource (s : Settings) : Type 1 where
  pub State : Type 0
  pub IsGood : State → Type 0
  pub Asked : Node → Type 0
  pub fetch : ℕ → State → Option (Outcome FetchResult × State)
  pub fetch_total : (n : ℕ) (st : State) → fetch n st ≢ none
  pub fetch-Comes :
      (n : ℕ) (st st' : State) (o : Outcome FetchResult)
      → IsGood st
      → fetch n st ≡ some (o, st')
      → Comes Asked s n o × IsGood st'

abbrev pub map_option {ℓ κ} : {A : Type ℓ} {B : Type κ} → (A → B) → Option A → Option B
map_option f none = none
map_option f (some a) = some (f a)

abbrev pub staker_before : Option FetchResult → Option StakerInformation
staker_before none = none
staker_before (some p) = p.staker

abbrev pub nodes_before : Option FetchResult → List AuthorityNode
nodes_before none = []
nodes_before (some p) = p.auth_nodes

-- `ProcessBlock`: the event for a block and its predecessor.
module _ {s : Settings} (src : BlockSource s) where
  open src use {State, fetch}

  abbrev pub new_event : ℕ → FetchResult → Option FetchResult → BlockEvent
  new_event n r p = record {
    fork = none;
    block = r.block;
    prev = map_option (λ q. q.block) p;
    hayabusa_status = record {
      active = leb s.hayabusa_active_block n;
      forked = leb s.hayabusa_forked_block n;
    };
    staker = r.staker;
    parent_staker = staker_before p;
    seed = r.seed;
    auth_nodes = r.auth_nodes;
    parent_auth_nodes = nodes_before p;
    future_seed = r.future_seed;
  }

  unfoldable pub with_previous :
      ℕ → FetchResult → Option (Outcome FetchResult × State) → Option (Outcome BlockEvent × State)
  with_previous n r none = none
  with_previous n r (some (failed e, st)) =
      some (failed (wrapped "failed to fetch previous block" e), st)
  with_previous n r (some (panicked, st)) = some (panicked, st)
  with_previous n r (some (done p, st)) = some (done (new_event n r (some p)), st)

  unfoldable pub with_current :
      ℕ → Option (Outcome FetchResult × State) → Option (Outcome BlockEvent × State)
  unfolding with_previous
  with_current n none = none
  with_current n (some (failed e, st)) = some (failed (wrapped "failed to fetch block" e), st)
  with_current n (some (panicked, st)) = some (panicked, st)
  with_current n (some (done r, st)) =
      if ltb 1 n then with_previous n r (fetch (n - 1) st) else some (done (new_event n r none), st)

  unfoldable pub process_block : ℕ → State → Option (Outcome BlockEvent × State)
  unfolding with_current
  process_block n st = with_current n (fetch n st)
