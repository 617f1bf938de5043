-- ===== src/Pubsub/Events/Source.antt =====
-- The fetcher of pubsub/block_fetcher.go as the source behind pubsub/event_block.go.
use thorflux.Base.{some-pair, ℕ, ◌+◌, ◌<◌, ◌≡◌, refl, ◌≢◌, Option, none, some}
use thorflux.Stats.Outcome.{Outcome}
use thorflux.Pubsub.Fetcher.{Node, FetchResult, Settings, LruCache, fetch_block, max_wait_time}
use thorflux.Pubsub.Fetcher.Caching.{IsFetched, fetch_block-Comes, fetch_block_total}
use thorflux.Pubsub.Events.{BlockSource}

module _ (s : Settings) (lru : LruCache FetchResult) (nodes : ℕ → ℕ → Node) (elapsed : ℕ → ℕ → ℕ)
    (clock : (k j : ℕ) → elapsed k j < elapsed k (j + 1)) where
  open lru use {Cache}

  -- The number of calls goes with the cache: `nodes k i` is the node at the i-th attempt of call k.
  abbrev pub counted :
      ℕ → Option (Outcome FetchResult × Cache) → Option (Outcome FetchResult × (Cache × ℕ))
  counted k none = none
  counted k (some (r, c)) = some (r, (c, k + 1))

  abbrev pub fetch_counted : ℕ → Cache × ℕ → Option (Outcome FetchResult × (Cache × ℕ))
  fetch_counted n (c, k) =
      counted k (fetch_block lru s c n (nodes k) (elapsed k) (max_wait_time + 2))

  pub counted-eq :
      (k : ℕ) (o : Option (Outcome FetchResult × Cache)) (r : Outcome FetchResult) (st : Cache × ℕ)
      → counted k o ≡ some (r, st)
      → o ≡ some (r, st.0)
  counted-eq k none r st h = cc
  counted-eq k (some (x, c)) r st h = let (e, f) = some-pair h in rw (e, f)

  pub counted_total :
      (k : ℕ) (o : Option (Outcome FetchResult × Cache)) → o ≢ none → counted k o ≢ none
  counted_total k none h = absurd (h refl)
  counted_total k (some (x, c)) h = λ e. cc

  -- A node that some attempt of some call asks.
  abbrev pub IsAsked : Node → Type 0
  IsAsked node = (k : ℕ) × (i : ℕ) × (node ≡ nodes k i)

  -- The fetcher with its cache keeps the promises of a source.
  abbrev pub cached_source : BlockSource s
  cached_source = record {
    State = Cache × ℕ;
    IsGood = λ st. IsFetched lru IsAsked s st.0;
    Asked = IsAsked;
    fetch = fetch_counted;
    fetch_total = λ n st.
        counted_total st.1 _
          (fetch_block_total lru s st.0 n (nodes st.1) (elapsed st.1) (clock st.1));
    fetch-Comes = λ n st st' o v h.
        fetch_block-Comes lru IsAsked s st.0 st'.0 n (nodes st.1) (elapsed st.1) (max_wait_time + 2)
          o v (λ i. (st.1, i, refl)) (counted-eq st.1 _ o st' h);
  }
