-- ===== src/Pubsub/Events/Complete.antt =====
-- What an event of pubsub/event_block.go carries.
use thorflux.Base.{
  ℕ, ◌-◌, ◌<◌, ◌≡◌, refl, sym, ◌⊎◌, inl, inr, Bool, true, false, ◌&&◌, Option, none, some, [],
  arith, ltb, leb, ltb→lt, Bool-cases,
}
use thorflux.Stats.Outcome.{Outcome, done, failed, panicked, done-injective}
use thorflux.Pubsub.Fetcher.{Node, FetchResult, Settings, fetch_once, map_done}
use thorflux.Pubsub.Fetcher.Caching.{From}
use thorflux.Pubsub.Fetcher.Seeds.{Fetched, fetch_once-Fetched}
use thorflux.Pubsub.Events.{
  BlockEvent, BlockSource, new_event, with_previous, with_current, process_block,
}

abbrev pub is_some {ℓ} : {A : Type ℓ} → Option A → Bool
is_some none = false
is_some (some a) = true

-- Staker information from the fork on, also of the parent; no authority nodes after the activation;
-- a predecessor for every block above the first; and the status flags of the block's own number.
pub record IsComplete (s : Settings) (n : ℕ) (ev : BlockEvent) : Type 0 where
  pub no_fork : ev.fork ≡ none
  pub forked : ev.hayabusa_status.forked ≡ leb s.hayabusa_forked_block n
  pub active : ev.hayabusa_status.active ≡ leb s.hayabusa_active_block n
  pub staker : is_some ev.staker ≡ leb s.hayabusa_forked_block n
  pub prev : is_some ev.prev ≡ ltb 1 n
  pub parent_staker : is_some ev.parent_staker ≡ (ltb 1 n && leb s.hayabusa_forked_block (n - 1))
  pub no_auth : s.hayabusa_active_block < n → ev.auth_nodes ≡ []

-- What is promised of a result: an event is complete, and a panic is that of a fetch of the block or of
-- its predecessor from a node that has been asked.
abbrev pub Promises : (Asked : Node → Type 0) → Settings → ℕ → Outcome BlockEvent → Type 0
Promises Asked s n (done ev) = IsComplete s n ev
Promises Asked s n (failed e) = Unit {0}
Promises Asked s n panicked = From Asked s n panicked ⊎ ((1 < n) × From Asked s (n - 1) panicked)

map_done-some :
    {A : Type 0} (m : Outcome A) (o : Option A) → map_done some m ≡ done o → is_some o ≡ true
map_done-some (done a) o h = let e : some a ≡ o = done-injective h in rw (← e)
map_done-some (failed x) o h = cc
map_done-some panicked o h = cc

Fetched-staker :
    (s : Settings) (node : Node) (n : ℕ) (r : FetchResult)
    → fetch_once s node n ≡ done r
    → is_some r.staker ≡ leb s.hayabusa_forked_block n
Fetched-staker s node n r h = elim (Bool-cases (leb s.hayabusa_forked_block n)) [
  | inl e ↦
      rw e (map_done-some (node.fetch_validations r.block.id) r.staker (rw e at f.staker_of_fork))
  | inr e ↦ let q : none ≡ r.staker = done-injective (rw e at f.staker_of_fork) in rw e (rw (← q))
]
  where
    f : Fetched s node n r
    f = fetch_once-Fetched s node n r h

Fetched-no_auth :
    (s : Settings) (node : Node) (n : ℕ) (r : FetchResult)
    → fetch_once s node n ≡ done r
    → s.hayabusa_active_block < n
    → r.auth_nodes ≡ []
Fetched-no_auth s node n r h after =
    let e : leb n s.hayabusa_active_block ≡ false = ground arith in
    sym (done-injective (rw e at (fetch_once-Fetched s node n r h).auth_of))

module _ {s : Settings} (src : BlockSource s) where
  open src use {State, IsGood, Asked, fetch, fetch_total, fetch-Comes}

  new_event-IsComplete_first :
      (node : Node) (n : ℕ) (r : FetchResult)
      → fetch_once s node n ≡ done r
      → ltb 1 n ≡ false
      → IsComplete s n (new_event src n r none)
  new_event-IsComplete_first node n r h first = record {
    no_fork = refl;
    forked = refl;
    active = refl;
    staker = Fetched-staker s node n r h;
    prev = sym first;
    parent_staker = rw first;
    no_auth = Fetched-no_auth s node n r h;
  }

  new_event-IsComplete :
      (node before : Node) (n : ℕ) (r p : FetchResult)
      → fetch_once s node n ≡ done r
      → fetch_once s before (n - 1) ≡ done p
      → ltb 1 n ≡ true
      → IsComplete s n (new_event src n r (some p))
  new_event-IsComplete node before n r p h hp later = record {
    no_fork = refl;
    forked = refl;
    active = refl;
    staker = Fetched-staker s node n r h;
    prev = sym later;
    parent_staker = rw later (Fetched-staker s before (n - 1) p hp);
    no_auth = Fetched-no_auth s node n r h;
  }

  abbrev Promised : ℕ → Option (Outcome BlockEvent × State) → Type 0
  Promised n o =
      (r : Outcome BlockEvent) × (st' : State) × (o ≡ some (r, st'))
      × IsGood st'
      × Promises Asked s n r

  with_previous-Promised :
      (node : Node) (n : ℕ) (r : FetchResult) (st : State)
      (o : Option (Outcome FetchResult × State))
      → IsGood st
      → fetch_once s node n ≡ done r
      → ltb 1 n ≡ true
      → fetch (n - 1) st ≡ o
      → Promised n (with_previous src n r o)
  unfolding with_previous
  with_previous-Promised node n r st none v hr later e = absurd (fetch_total (n - 1) st e)
  with_previous-Promised node n r st (some (failed x, st')) v hr later e =
      let (from, good) = fetch-Comes (n - 1) st st' (failed x) v e in (_, st', refl, good, tt)
  with_previous-Promised node n r st (some (panicked, st')) v hr later e =
      let (from, good) = fetch-Comes (n - 1) st st' panicked v e in
      (_, st', refl, good, inr (ltb→lt _ _ later, from))
  with_previous-Promised node n r st (some (done p, st')) v hr later e =
      let ((before, asked, hp), good) = fetch-Comes (n - 1) st st' (done p) v e in
      (_, st', refl, good, new_event-IsComplete node before n r p hr hp later)

  with_current-Promised :
      (n : ℕ) (st : State) (o : Option (Outcome FetchResult × State))
      → IsGood st
      → fetch n st ≡ o
      → Promised n (with_current src n o)
  unfolding with_current
  with_current-Promised n st none v e = absurd (fetch_total n st e)
  with_current-Promised n st (some (failed x, st')) v e =
      let (from, good) = fetch-Comes n st st' (failed x) v e in (_, st', refl, good, tt)
  with_current-Promised n st (some (panicked, st')) v e =
      let (from, good) = fetch-Comes n st st' panicked v e in (_, st', refl, good, inl from)
  with_current-Promised n st (some (done r, st')) v e =
      let ((node, asked, hr), good) = fetch-Comes n st st' (done r) v e in
      elim (Bool-cases (ltb 1 n)) [
        | inl later ↦
            rw later (with_previous-Promised node n r st' (fetch (n - 1) st') good hr later refl)
        | inr first ↦ rw first (_, st', refl, good, new_event-IsComplete_first node n r hr first)
      ]

  -- `ProcessBlock` comes to an event, an error or a panic, and leaves the source good if it was. It
  -- panics only where a fetch of the block or of its predecessor from a node that is asked does. Its
  -- event for a number has a predecessor exactly above block 1; it and its predecessor carry staker
  -- information exactly from the fork on; it has no authority nodes after the activation, its status
  -- flags are those of its number, and it reports no fork.
  pub process_block-Promises :
      (n : ℕ) (st : State)
      → IsGood st
      → (r : Outcome BlockEvent) × (st' : State) × (process_block src n st ≡ some (r, st'))
        × IsGood st'
        × Promises Asked s n r
  unfolding process_block
  process_block-Promises n st v = with_current-Promised n st (fetch n st) v refl
