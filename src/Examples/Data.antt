-- ===== src/Examples/Data.antt =====
-- A small chain with a fork, a node that serves it, and a cache of one entry.
use thorflux.Base.{
  ℕ, suc, ◌+◌, ◌*◌, ◌≡◌, refl, ap, subst, ◌⊎◌, inl, inr, true, Option, none, some, List, [], ◌∷◌,
  arith, ◌==◌, if◌then◌else◌, Bool-cases, Any,
}
use thorflux.Chain.{
  Block, Result, ok, err, not_found, Revision, at_number, at_id, finalized, best, justified, Client,
  ok-injective,
}
use thorflux.Pubsub.Forks.Total.{IsKnown, Descends}
use thorflux.Pubsub.Forks.Branch.{IsParent}
use thorflux.Pubsub.Publisher.Start.{AnswersByNumber}
use thorflux.Pubsub.Fetcher.{LruCache}

abbrev pub block_of : (number id parent_id : ℕ) → Block
block_of number id parent_id = record {
  number = number;
  id = id;
  parent_id = parent_id;
  timestamp = number * 10;
  signer = id + 1000;
  gas_used = 0;
  gas_limit = 0;
  size = 0;
  total_score = number;
  base_fee = none;
  com_bit = true;
  transactions = [];
}

-- Block 1, the best chain above it, and the side chain above it.
abbrev pub root : Block
root = block_of 1 101 100

abbrev pub best_2 : Block
best_2 = block_of 2 102 101

abbrev pub best_3 : Block
best_3 = block_of 3 103 102

abbrev pub side_2 : Block
side_2 = block_of 2 202 101

abbrev pub side_3 : Block
side_3 = block_of 3 203 202

abbrev pub best_chain : List Block
best_chain = root ∷ best_2 ∷ best_3 ∷ []

abbrev pub all_blocks : List Block
all_blocks = root ∷ best_2 ∷ best_3 ∷ side_2 ∷ side_3 ∷ []

abbrev pub find_by : (Block → ℕ) → ℕ → List Block → Result Block
find_by key n [] = err not_found
find_by key n (b ∷ bs) = if key b == n then ok b else find_by key n bs

abbrev pub answer : Revision → Result Block
answer (at_number n) = find_by (λ b. b.number) n best_chain
answer (at_id id) = find_by (λ b. b.id) id all_blocks
answer finalized = ok root
answer best = ok best_3
answer justified = ok best_2

abbrev pub client : Client
client = record { expanded_block = answer }

find_by-key :
    (key : Block → ℕ) (n : ℕ) (bs : List Block) (b : Block) → find_by key n bs ≡ ok b → key b ≡ n
find_by-key key n [] b h = absurd (cc)
find_by-key key n (x ∷ bs) b h = elim (Bool-cases (key x == n)) [
  | inl e ↦
      let same : x ≡ b = ok-injective (simp e at h) in subst (λ y. key y ≡ n) same (ground arith)
  | inr e ↦ find_by-key key n bs b (simp e at h)
]

find_by-Any :
    (key : Block → ℕ) (n : ℕ) (bs : List Block) (b : Block)
    → find_by key n bs ≡ ok b
    → Any (λ x. x ≡ b) bs
find_by-Any key n [] b h = absurd (cc)
find_by-Any key n (x ∷ bs) b h = elim (Bool-cases (key x == n)) [
  | inl e ↦ inl (ok-injective (simp e at h))
  | inr e ↦ inr (find_by-Any key n bs b (simp e at h))
]

known-Any : (b : Block) → IsKnown client b → Any (λ x. x ≡ b) all_blocks
known-Any b (at_number n, h) = elim (find_by-Any (λ x. x.number) n best_chain b h) [
  | inl e ↦ inl e
  | inr (inl e) ↦ inr (inl e)
  | inr (inr (inl e)) ↦ inr (inr (inl e))
  | inr (inr (inr none_left)) ↦ elim none_left [ ]
]
known-Any b (at_id id, h) = find_by-Any (λ x. x.id) id all_blocks b h
known-Any b (finalized, h) = inl (ok-injective h)
known-Any b (best, h) = inr (inr (inl (ok-injective h)))
known-Any b (justified, h) = inr (inl (ok-injective h))

abbrev IsBelow : Block → Type 0
IsBelow b = (p : Block) → IsParent client p b → b.number ≡ suc p.number

-- Where the answer is the parent itself, its number is read off.
below : (b : Block) → Any (λ x. x ≡ b) all_blocks → IsBelow b
below b (inl e) = subst IsBelow e (λ p h. absurd (cc))
below b (inr (inl e)) = subst IsBelow e (λ p h. ap (λ (q : Block). suc q.number) (ok-injective h))
below b (inr (inr (inl e))) =
    subst IsBelow e (λ p h. ap (λ (q : Block). suc q.number) (ok-injective h))
below b (inr (inr (inr (inl e)))) =
    subst IsBelow e (λ p h. ap (λ (q : Block). suc q.number) (ok-injective h))
below b (inr (inr (inr (inr (inl e))))) =
    subst IsBelow e (λ p h. ap (λ (q : Block). suc q.number) (ok-injective h))
below b (inr (inr (inr (inr (inr none_left))))) = elim none_left [ ]

pub client-Descends : Descends client
client-Descends b p known parent = below b (known-Any b known) p parent

pub client-AnswersByNumber : AnswersByNumber client
client-AnswersByNumber n b h = find_by-key (λ x. x.number) n best_chain b h

-- An LRU cache with room for one entry.
abbrev pub hit : {V : Type 0} → ℕ → Option (ℕ × V) → Option V
hit k none = none
hit k (some (j, v)) = if j == k then some v else none

pub hit-add :
    {V : Type 0} (k j : ℕ) (v w : V) (c : Option (ℕ × V))
    → hit k (some (j, v)) ≡ some w
    → ((k ≡ j) × (w ≡ v)) ⊎ (hit k c ≡ some w)
hit-add k j v w c h = elim (Bool-cases (j == k)) [
  | inl e ↦ inl (ground arith, cc)
  | inr e ↦ absurd (cc)
]

pub hit_self : {V : Type 0} (k : ℕ) (v : V) → hit k (some (k, v)) ≡ some v
hit_self k v = ground arith

abbrev pub one_entry_cache : {V : Type 0} → LruCache V
one_entry_cache {V} = record {
  Cache = Option (ℕ × V);
  empty = none;
  get = λ k c. (hit k c, c);
  add = λ k v c. some (k, v);
  get-empty = λ k. refl;
  get-get = λ k j c. refl;
  get-add_self = λ k v c. hit_self k v;
  get-add = λ k j v w c h. hit-add k j v w c h;
}
