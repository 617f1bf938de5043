-- ===== src/Stats/Authority.antt =====
-- stats/authority/list.go and candidate.go: the candidate list, and when it is fetched again. The
-- addresses of the built-in contracts, blake2b, the answers of the authority contract and of the
-- owners' file are parameters.
pub mod Reset
pub mod Decode
pub mod Registry
pub mod Shuffle
pub mod Points
pub mod SlotPoints
use thorflux.Base.{
  ℕ, String, Bool, true, false, not, ◌||◌, Option, none, some, List, [], ◌∷◌, map, ltb, ◌==◌,
  if◌then◌else◌, length, select, any,
}
use thorflux.Base.Sorting.{sort_by, key_lt}
use thorflux.Chain.{Block, Tx, Output, LogEvent, Transfer, Error, Result, ok, err, wrap}
use thorflux.Types.{Event}

pub record Candidate : Type 0 where
  pub master : ℕ
  pub endorsor : ℕ
  pub identity : ℕ
  pub active : Bool

pub record Owner : Type 0 where
  pub master_address : ℕ
  pub name : String
  pub point_of_contact : String
  pub network : String

-- The `List` of the package, without its client; `owners` is the map, the latest write first.
pub record CandidateList : Type 0 where
  pub candidates : List Candidate
  pub update_block : ℕ
  pub owners : List (ℕ × Owner)
  pub owners_repo : String

unfoldable pub new_list : String → CandidateList
new_list repo = record { candidates = []; update_block = 0; owners = []; owners_repo = repo }

-- `builtin.Authority.Address` and `builtin.Params.Address`.
pub record Builtins : Type 0 where
  pub authority : ℕ
  pub params : ℕ

-- The nested loops that look for an event of a contract.
unfoldable pub output_has_event : ℕ → Output → Bool
output_has_event address o = any (λ (ev : LogEvent). ev.address == address) o.events

unfoldable pub has_event : ℕ → List Tx → Bool
unfolding output_has_event
has_event address txs = any (λ (t : Tx). any (output_has_event address) t.outputs) txs

-- `candidateMap`: every endorsor and every master.
unfoldable pub candidate_map : List Candidate → ℕ → Bool
candidate_map cs address =
    any (λ (c : Candidate). (address == c.endorsor) || (address == c.master)) cs

-- An event of the Params contract, or a transfer from or to a candidate.
unfoldable pub output_touches : Builtins → List Candidate → Output → Bool
output_touches b cs o =
    if output_has_event b.params o
    then true
    else any (λ (t : Transfer). candidate_map cs t.sender || candidate_map cs t.recipient)
        o.transfers

unfoldable pub has_endorsor_event : Builtins → List Candidate → List Tx → Bool
unfolding output_touches
has_endorsor_event b cs txs = any (λ (t : Tx). any (output_touches b cs) t.outputs) txs

unfoldable pub is_empty {ℓ} : {A : Type ℓ} → List A → Bool
is_empty [] = true
is_empty (x ∷ xs) = false

unfoldable pub should_reset : Builtins → CandidateList → Block → Bool
unfolding is_empty
should_reset b l block =
    if is_empty l.candidates
    then true
    else if ltb block.number l.update_block
    then false
    else if not (has_event b.authority block.transactions)
    then has_endorsor_event b l.candidates block.transactions
    else false

-- `l.owners[owner.MasterAddress] = &owner`, for each owner of the file.
unfoldable pub add_owners : List (ℕ × Owner) → List Owner → List (ℕ × Owner)
add_owners m [] = m
add_owners m (o ∷ os) = add_owners ((o.master_address, o) ∷ m) os

unfoldable pub owners_of : List (ℕ × Owner) → Result (List Owner) → List (ℕ × Owner)
unfolding add_owners
owners_of m (ok os) = add_owners m os
owners_of m (err e) = m

-- `RefreshOwnersList`; `has_repo` says that `ownersRepo` is not empty.
unfoldable pub refresh_owners_list : Bool → Result (List Owner) → CandidateList → CandidateList
unfolding owners_of
refresh_owners_list has_repo parsed l =
    if has_repo then record l { owners = owners_of l.owners parsed } else l

-- What the outside answers while a block is written.
pub record Answers : Type 0 where
  pub list_all : ℕ → Result (List Candidate)
  pub has_repo : Bool
  pub owners_file : Result (List Owner)

-- `Init`: the state behind it and the error, if any.
unfoldable pub init_with :
    Answers → ℕ → CandidateList → Result (List Candidate) → CandidateList × Option Error
unfolding refresh_owners_list
init_with a block_num l (err e) = (l, some e)
init_with a block_num l (ok cs) = (
  refresh_owners_list a.has_repo a.owners_file
      (record l { candidates = cs; update_block = block_num }),
  none,
)

unfoldable pub init : Answers → ℕ → ℕ → CandidateList → CandidateList × Option Error
unfolding init_with
init a revision block_num l = init_with a block_num l (a.list_all revision)

-- `Len` and `Invalidate`.
unfoldable pub list_len : CandidateList → ℕ
list_len l = length l.candidates

unfoldable pub invalidate : CandidateList → CandidateList
invalidate l = record l { candidates = []; update_block = 0 }

-- `shuffleCandidates`: `hash seed number address` is blake2b of the three, read as a number, so that
-- bytes.Compare is `<`.
unfoldable pub shuffle_candidates : (ℕ → ℕ) → List Candidate → List ℕ
shuffle_candidates hash cs =
    sort_by (key_lt hash)
      (map (λ (c : Candidate). c.master) (select (λ (c : Candidate). c.active) cs))

-- `Shuffled`: an empty list is fetched at the previous block first; an error gives no addresses.
unfoldable pub shuffled_after : (ℕ → ℕ) → CandidateList × Option Error → List ℕ × CandidateList
unfolding shuffle_candidates
shuffled_after hash (l, some e) = ([], l)
shuffled_after hash (l, none) = (shuffle_candidates hash l.candidates, l)

unfoldable pub shuffled : Answers → (ℕ → ℕ) → Block → CandidateList → List ℕ × CandidateList
unfolding shuffled_after
shuffled a hash prev l =
    if is_empty l.candidates
    then shuffled_after hash (init a prev.id prev.number l)
    else (shuffle_candidates hash l.candidates, l)
