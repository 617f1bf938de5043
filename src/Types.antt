-- ===== src/Types.antt =====
-- types/types.go and types/authority_node.go. The embedded structs of a validation are flattened into
-- one record; a big.Int that is decoded from unsigned words is a number, a difference an integer.
use thorflux.Base.{
  ℕ, ◌+◌, ◌≡◌, refl, inl, inr, Bool, Option, none, some, List, [], ◌∷◌, ◌==◌, if◌then◌else◌,
  Bool-cases, count,
}
use thorflux.Chain.{Block}
use thorflux.Base.Int.{ℤ}

pub record AuthorityNode : Type 0 where
  pub master : ℕ
  pub endorsor : ℕ
  pub active : Bool

-- `GetActiveNodes`.
unfoldable pub get_active_nodes : List AuthorityNode → List AuthorityNode
get_active_nodes [] = []
get_active_nodes (n ∷ ns) = if n.active then n ∷ get_active_nodes ns else get_active_nodes ns

-- `GetActiveCount`: `count++` at each active node.
unfoldable pub active_count_from : ℕ → List AuthorityNode → ℕ
active_count_from count [] = count
active_count_from count (n ∷ ns) = active_count_from (if n.active then count + 1 else count) ns

unfoldable pub get_active_count : List AuthorityNode → ℕ
unfolding active_count_from
get_active_count nodes = active_count_from 0 nodes

-- `validation.Status`.
pub data Status : Type 0 where
  unknown queued active exit : Status

pub record Validation : Type 0 where
  pub address : ℕ
  pub endorser : ℕ
  pub period : ℕ
  pub completed_periods : ℕ
  pub status : Status
  pub start_block : ℕ
  pub exit_block : Option ℕ
  pub offline_block : Option ℕ
  pub locked_vet : ℕ
  pub queued_vet : ℕ
  pub weight : ℕ
  pub total_locked_stake : ℕ
  pub total_locked_weight : ℕ
  pub total_queued_stake : ℕ
  pub next_period_weight : ℕ
  pub total_exiting_stake : ℕ
  pub online : Bool
  pub delegator_stake : ℕ
  pub delegator_weight : ℤ
  pub delegator_queued_stake : ℤ
  pub delegator_queued_weight : ℤ

pub record StakerInformation : Type 0 where
  pub validations : List Validation
  pub contract_balance : ℕ
  pub queued_vet : ℕ
  pub total_vet : ℕ
  pub total_weight : ℕ
  pub total_supply : ℕ
  pub total_burned : ℕ
  pub cooldown_vet : ℕ
  pub withdrawable_vet : ℕ

-- A Go map from addresses, as the list of its writes, the latest first.
abbrev pub AddressMap : Type 0
AddressMap = List (ℕ × Validation)

unfoldable pub lookup : ℕ → AddressMap → Option Validation
lookup k [] = none
lookup k ((j, v) ∷ m) = if j == k then some v else lookup k m

-- `ValidationMap`: the loop writes each validation under its address.
unfoldable pub map_from : AddressMap → List Validation → AddressMap
map_from m [] = m
map_from m (v ∷ vs) = map_from ((v.address, v) ∷ m) vs

unfoldable pub validation_map : List Validation → AddressMap
unfolding map_from
validation_map vs = map_from [] vs

abbrev pub write_active : AddressMap → Validation → Status → AddressMap
write_active m v unknown = m
write_active m v queued = m
write_active m v active = (v.address, v) ∷ m
write_active m v exit = m

-- `ActiveMap`.
unfoldable active_from : AddressMap → List Validation → AddressMap
active_from m [] = m
active_from m (v ∷ vs) = active_from (write_active m v v.status) vs

unfoldable active_map : List Validation → AddressMap
unfolding active_from
active_map vs = active_from [] vs

write_active-lookup :
    (m : AddressMap) (v : Validation) (s : Status) (a : ℕ) {w : Validation}
    → v.status ≡ s
    → ((w : Validation) → lookup a m ≡ some w → w.status ≡ active)
    → lookup a (write_active m v s) ≡ some w
    → w.status ≡ active
unfolding lookup
write_active-lookup m v unknown a e h k = h _ k
write_active-lookup m v queued a e h k = h _ k
write_active-lookup m v exit a e h k = h _ k
write_active-lookup m v active a e h k = elim (Bool-cases (v.address == a)) [
  | inl t ↦ let same = rw t at k in cc
  | inr t ↦ h _ (rw t at k)
]

active_from-lookup :
    (m : AddressMap) (vs : List Validation) (a : ℕ) {w : Validation}
    → ((w : Validation) → lookup a m ≡ some w → w.status ≡ active)
    → lookup a (active_from m vs) ≡ some w
    → w.status ≡ active
unfolding active_from
active_from-lookup m [] a h k = h _ k
active_from-lookup m (v ∷ vs) a h k =
    active_from-lookup (write_active m v v.status) vs a
      (λ w e. write_active-lookup m v v.status a refl h e) k

-- A validation that `ActiveMap` holds is active.
active_map-lookup :
    (vs : List Validation) (a : ℕ) {w : Validation}
    → lookup a (active_map vs) ≡ some w
    → w.status ≡ active
unfolding active_map lookup
active_map-lookup vs a k = active_from-lookup [] vs a (λ w e. cc) k

pub record HayabusaStatus : Type 0 where
  pub active : Bool
  pub forked : Bool

-- `Event`; the only default tag is the signer, which the block holds.
pub record Event : Type 0 where
  pub block : Block
  pub seed : List ℕ
  pub hayabusa_status : HayabusaStatus
  pub prev : Option Block
  pub timestamp : ℕ
  pub staker : Option StakerInformation
  pub parent_staker : Option StakerInformation
  pub auth_nodes : List AuthorityNode
  pub parent_auth_nodes : List AuthorityNode
  pub future_seed : List ℕ
