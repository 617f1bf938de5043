-- ===== src/Pubsub/Fetcher/Caching.antt =====
-- What the cache of pubsub/block_fetcher.go does to the answers.
use thorflux.Base.{
  some-pair, ℕ, ◌+◌, ◌<◌, ◌≡◌, refl, sym, ◌∙◌, ◌≢◌, ◌⊎◌, inl, inr, Option, none, some, List, arith,
}
use thorflux.Chain.{ok, err}
use thorflux.Stats.Outcome.{Outcome, done, failed, panicked, done-injective}
use thorflux.Retry.{Retried}
use thorflux.Retry.Bounds.{retry_increasing_total, retry_increasing-ok}
use thorflux.Pubsub.Fetcher.{
  Node, FetchResult, Settings, fetch_once, attempt, LruCache, store_result, fetch_block,
  max_wait_time,
}

-- One of the nodes that have been asked came to this at that number.
abbrev pub From : (Asked : Node → Type 0) → Settings → ℕ → Outcome FetchResult → Type 0
From Asked s n o = (node : Node) × Asked node × (fetch_once s node n ≡ o)

-- A block that is returned, or a panic, comes from such a node; an error may come from any.
abbrev pub Comes : (Asked : Node → Type 0) → Settings → ℕ → Outcome FetchResult → Type 0
Comes Asked s n (done r) = From Asked s n (done r)
Comes Asked s n (failed e) = Unit {0}
Comes Asked s n panicked = From Asked s n panicked

-- The nodes asked before, and those that the attempts of a call ask.
abbrev pub AskedWith : (Asked : Node → Type 0) → (ℕ → Node) → Node → Type 0
AskedWith Asked nodes node = Asked node ⊎ ((i : ℕ) × (node ≡ nodes i))

attempt-some : (o : Outcome FetchResult) {r : FetchResult} → attempt o ≡ ok (some r) → o ≡ done r
attempt-some (done r) h = cc
attempt-some (failed e) h = cc
attempt-some panicked h = cc

attempt-none : (o : Outcome FetchResult) → attempt o ≡ ok none → o ≡ panicked
attempt-none (done r) h = cc
attempt-none (failed e) h = cc
attempt-none panicked h = refl

module _ (lru : LruCache FetchResult) where
  open lru use {Cache, empty, get, add, get-empty, get-get, get-add_self, get-add}

  -- Each entry is what one of the nodes that have been asked gave for its key.
  abbrev pub IsFetched : (Asked : Node → Type 0) → Settings → Cache → Type 0
  IsFetched Asked s c = (k : ℕ) (r : FetchResult) → (get k c).0 ≡ some r → From Asked s k (done r)

  pub empty-IsFetched : (Asked : Node → Type 0) (s : Settings) → IsFetched Asked s empty
  empty-IsFetched Asked s k r h = let q : none ≡ some r = sym (get-empty k) ∙ h in absurd (cc)

  -- What a call of `fetch_block` leaves behind.
  abbrev Leaves : (Asked : Node → Type 0) → Settings → ℕ → Outcome FetchResult → Cache → Type 0
  Leaves Asked s n o c = Comes Asked s n o × IsFetched Asked s c

  get-IsFetched :
      (Asked : Node → Type 0) (s : Settings) (n : ℕ) (c : Cache)
      → IsFetched Asked s c
      → IsFetched Asked s (get n c).1
  get-IsFetched Asked s n c v k r h = v k r (sym (get-get k n c) ∙ h)

  store_result-Leaves :
      (Asked : Node → Type 0) (s : Settings) (n : ℕ) (c : Cache)
      (out : Option (Retried (Option FetchResult))) (res : Outcome FetchResult) (c' : Cache)
      → IsFetched Asked s c
      → ((sleeps : List ℕ) (o : Option FetchResult)
          → out ≡ some (sleeps, ok o)
          → (node : Node) × Asked node × (attempt (fetch_once s node n) ≡ ok o))
      → store_result lru n c out ≡ some (res, c')
      → Leaves Asked s n res c'
  unfolding store_result
  store_result-Leaves Asked s n c none res c' v got h = cc
  store_result-Leaves Asked s n c (some (sleeps, ok (some r))) res c' v got h =
      let er : res ≡ done r = cc in
      let ec : c' ≡ add n r c = cc in
      let (node, asked, gave) = got sleeps (some r) refl in
      let from : From Asked s n (done r) = (node, asked, attempt-some _ gave) in
      rw (er, ec)
        (
          from,
          λ k w found. elim (get-add k n r w c found) [
            | inl (same, value) ↦ rw (same, value) from
            | inr old ↦ v k w old
          ],
        )
  store_result-Leaves Asked s n c (some (sleeps, ok none)) res c' v got h =
      let er : res ≡ panicked = cc in
      let ec : c' ≡ c = cc in
      let (node, asked, gave) = got sleeps none refl in
      rw (er, ec) ((node, asked, attempt-none _ gave), v)
  store_result-Leaves Asked s n c (some (sleeps, err e)) res c' v got h =
      let er : res ≡ failed e = cc in let ec : c' ≡ c = cc in rw (er, ec) (tt, v)

  cached-Leaves :
      (Asked : Node → Type 0) (s : Settings) (c : Cache) (n : ℕ) (nodes : ℕ → Node)
      (elapsed : ℕ → ℕ) (fuel : ℕ) (found : Option FetchResult) (res : Outcome FetchResult)
      (c' : Cache)
      → (get n c).0 ≡ found
      → IsFetched Asked s c
      → ((i : ℕ) → Asked (nodes i))
      → fetch_block lru s c n nodes elapsed fuel ≡ some (res, c')
      → Leaves Asked s n res c'
  unfolding fetch_block
  cached-Leaves Asked s c n nodes elapsed fuel (some r) res c' e v asked h =
      let (er, ec) = some-pair (rw (e, fetch_block) at h) in
      rw (er, ec) (v n r e, get-IsFetched Asked s n c v)
  cached-Leaves Asked s c n nodes elapsed fuel none res c' e v asked h =
      store_result-Leaves Asked s n (get n c).1 _ res c' (get-IsFetched Asked s n c v)
        (λ sleeps o got.
          let (i, success) =
            retry_increasing-ok (λ i. attempt (fetch_once s (nodes i) n)) elapsed 100 30_000 120_000
              fuel sleeps o (omega arith) got in
          (nodes i, asked i, success))
        (rw (e, fetch_block) at h)

  -- If every entry of the cache is what a node asked before gave for its key, then a block that
  -- `FetchBlock` returns is what one of those nodes, or of the nodes that this call asks, gave for its
  -- number; a panic is that of such a node; and the cache that the call leaves, with whatever result,
  -- has only entries of these nodes.
  pub fetch_block-IsFetched :
      (Asked : Node → Type 0) (s : Settings) (c c' : Cache) (n : ℕ) (nodes : ℕ → Node)
      (elapsed : ℕ → ℕ) (fuel : ℕ) (res : Outcome FetchResult)
      → IsFetched Asked s c
      → fetch_block lru s c n nodes elapsed fuel ≡ some (res, c')
      → Comes (AskedWith Asked nodes) s n res × IsFetched (AskedWith Asked nodes) s c'
  fetch_block-IsFetched Asked s c c' n nodes elapsed fuel res v h =
      cached-Leaves (AskedWith Asked nodes) s c n nodes elapsed fuel (get n c).0 res c' refl
        (λ k r e. let (node, asked, gave) = v k r e in (node, inl asked, gave)) (λ i. inr (i, refl))
        h

  -- Where the nodes of the call are among those asked before, nothing changes in this respect.
  pub fetch_block-Comes :
      (Asked : Node → Type 0) (s : Settings) (c c' : Cache) (n : ℕ) (nodes : ℕ → Node)
      (elapsed : ℕ → ℕ) (fuel : ℕ) (res : Outcome FetchResult)
      → IsFetched Asked s c
      → ((i : ℕ) → Asked (nodes i))
      → fetch_block lru s c n nodes elapsed fuel ≡ some (res, c')
      → Comes Asked s n res × IsFetched Asked s c'
  fetch_block-Comes Asked s c c' n nodes elapsed fuel res v asked h =
      cached-Leaves Asked s c n nodes elapsed fuel (get n c).0 res c' refl v asked h

  store_result-found :
      (n : ℕ) (c c' : Cache) (out : Option (Retried (Option FetchResult))) (r : FetchResult)
      → store_result lru n c out ≡ some (done r, c')
      → (get n c').0 ≡ some r
  unfolding store_result
  store_result-found n c c' none r h = cc
  store_result-found n c c' (some (sleeps, ok none)) r h = cc
  store_result-found n c c' (some (sleeps, ok (some w))) r h =
      let er : r ≡ w = cc in let ec : c' ≡ add n w c = cc in rw (er, ec) (get-add_self n w c)
  store_result-found n c c' (some (sleeps, err e)) r h = cc

  fetch_block-found :
      (s : Settings) (c c' : Cache) (n : ℕ) (nodes : ℕ → Node) (elapsed : ℕ → ℕ) (fuel : ℕ)
      (r : FetchResult) (found : Option FetchResult)
      → (get n c).0 ≡ found
      → fetch_block lru s c n nodes elapsed fuel ≡ some (done r, c')
      → (get n c').0 ≡ some r
  unfolding fetch_block
  fetch_block-found s c c' n nodes elapsed fuel r (some w) e h =
      let (er, ec) = some-pair (rw (e, fetch_block) at h) in
      rw (done-injective er, ec) (get-get n n c ∙ e)
  fetch_block-found s c c' n nodes elapsed fuel r none e h =
      store_result-found n (get n c).1 c' _ r (rw (e, fetch_block) at h)

  -- Straight after a success, fetching the number again returns the same block with no request,
  -- whatever the node would answer by then: the cache does not see a change of the chain.
  pub fetch_block_twice :
      (s : Settings) (c c' : Cache) (n : ℕ) (nodes later : ℕ → Node) (elapsed elapsed' : ℕ → ℕ)
      (fuel fuel' : ℕ) (r : FetchResult)
      → fetch_block lru s c n nodes elapsed fuel ≡ some (done r, c')
      → fetch_block lru s c' n later elapsed' fuel' ≡ some (done r, (get n c').1)
  unfolding fetch_block
  fetch_block_twice s c c' n nodes later elapsed elapsed' fuel fuel' r h =
      rw (fetch_block-found s c c' n nodes elapsed fuel r (get n c).0 refl h, fetch_block)

  store_result_total :
      (n : ℕ) (c : Cache) (out : Option (Retried (Option FetchResult)))
      → out ≢ none
      → store_result lru n c out ≢ none
  unfolding store_result
  store_result_total n c none h = absurd (h refl)
  store_result_total n c (some (sleeps, ok none)) h = λ e. cc
  store_result_total n c (some (sleeps, ok (some w))) h = λ e. cc
  store_result_total n c (some (sleeps, err x)) h = λ e. cc

  fetch_block_total_at :
      (s : Settings) (c : Cache) (n : ℕ) (nodes : ℕ → Node) (elapsed : ℕ → ℕ)
      (found : Option FetchResult)
      → (get n c).0 ≡ found
      → ((j : ℕ) → elapsed j < elapsed (j + 1))
      → fetch_block lru s c n nodes elapsed (max_wait_time + 2) ≢ none
  unfolding fetch_block
  fetch_block_total_at s c n nodes elapsed (some r) e clock = rw (e, fetch_block) (λ q. cc)
  fetch_block_total_at s c n nodes elapsed none e clock =
      rw (e, fetch_block)
        (store_result_total n (get n c).1 _ (
          retry_increasing_total (λ i. attempt (fetch_once s (nodes i) n)) elapsed 100 30_000
            120_000 clock))

  -- A call of `FetchBlock` returns when the clock moves on between two attempts.
  pub fetch_block_total :
      (s : Settings) (c : Cache) (n : ℕ) (nodes : ℕ → Node) (elapsed : ℕ → ℕ)
      → ((j : ℕ) → elapsed j < elapsed (j + 1))
      → fetch_block lru s c n nodes elapsed (max_wait_time + 2) ≢ none
  fetch_block_total s c n nodes elapsed clock =
      fetch_block_total_at s c n nodes elapsed (get n c).0 refl clock
