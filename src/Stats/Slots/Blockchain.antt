-- ===== src/Stats/Slots/Blockchain.antt =====
-- `FetchAuthorityNodes` of stats/slots/blockchain.go, from the answer of the call on. The decoders of
-- hexadecimal text and of the contract's list are parameters.
use thorflux.Base.{ℕ, String, ◌≡◌, sym, ◌∙◌, Bool, Option, some, List, [], ◌∷◌, ◌++◌, map}
use thorflux.Chain.{failure, Result, ok}
use thorflux.Types.{AuthorityNode}
use mathlib.Core.List.{append_assoc, append-nil}
use thorflux.Stats.Outcome.{
  Outcome, done, failed, ◌>>=◌, returned, returned-done, deref, deref-done, done-injective,
  >>=-eq-done,
}

-- An entry of the contract's list.
pub record ListedNode : Type 0 where
  pub node_master : ℕ
  pub endorsor : ℕ
  pub active : Bool

abbrev to_authority_node : ListedNode → AuthorityNode
to_authority_node n = record { master = n.node_master; endorsor = n.endorsor; active = n.active }

-- The loop over the entries.
unfoldable append_nodes : List AuthorityNode → List ListedNode → List AuthorityNode
append_nodes nodes [] = nodes
append_nodes nodes (n ∷ ns) = append_nodes (nodes ++ to_authority_node n ∷ []) ns

module _ {Bytes' : Type 0} (decode_hex : String → Option Bytes')
    (decode_list : Bytes' → Result (List ListedNode)) where
  unfoldable with_response : List String → Outcome (List AuthorityNode)
  unfolding append_nodes
  with_response [] = failed (failure "insufficient response clauses from contract call")
  with_response (a ∷ []) = failed (failure "insufficient response clauses from contract call")
  with_response (a ∷ answer ∷ more) = do
    bytes ← deref (decode_hex answer)
    nodes ← returned (decode_list bytes)
    done (append_nodes [] nodes)

  unfoldable fetch_authority_nodes : Result (List String) → Outcome (List AuthorityNode)
  unfolding with_response
  fetch_authority_nodes inspected = do response ← returned inspected; with_response response

append_nodes-map :
    (nodes : List AuthorityNode) (ns : List ListedNode)
    → append_nodes nodes ns ≡ nodes ++ map to_authority_node ns
unfolding append_nodes
append_nodes-map nodes [] = sym (append-nil nodes)
append_nodes-map nodes (n ∷ ns) =
    append_nodes-map (nodes ++ to_authority_node n ∷ []) ns
    ∙ append_assoc nodes (to_authority_node n ∷ []) (map to_authority_node ns)

module _ {Bytes' : Type 0} (decode_hex : String → Option Bytes')
    (decode_list : Bytes' → Result (List ListedNode)) where
  -- The call has two results at least, of which the second decodes to the list, entry by entry.
  abbrev IsListed : Result (List String) → List AuthorityNode → Type 0
  IsListed inspected nodes =
      (first : String) × (answer : String) × (more : List String) × (bytes : Bytes') × (ns : List
        ListedNode)
      × (inspected ≡ ok (first ∷ answer ∷ more))
      × (decode_hex answer ≡ some bytes)
      × (decode_list bytes ≡ ok ns)
      × (nodes ≡ map to_authority_node ns)

  with_response-IsListed :
      (inspected : Result (List String)) (response : List String) {nodes : List AuthorityNode}
      → inspected ≡ ok response
      → with_response decode_hex decode_list response ≡ done nodes
      → IsListed inspected nodes
  unfolding with_response
  with_response-IsListed inspected [] e k = cc
  with_response-IsListed inspected (a ∷ []) e k = cc
  with_response-IsListed inspected (a ∷ answer ∷ more) e k =
      let (bytes, e1, k1) = >>=-eq-done (deref (decode_hex answer)) _ k in
      let (ns, e2, k2) = >>=-eq-done (returned (decode_list bytes)) _ k1 in
      (
        a,
        answer,
        more,
        bytes,
        ns,
        e,
        deref-done _ e1,
        returned-done _ e2,
        sym (done-injective k2) ∙ append_nodes-map [] ns,
      )

  -- The nodes that a call gives are those of the list in its second result.
  fetch_authority_nodes-IsListed :
      (inspected : Result (List String)) {nodes : List AuthorityNode}
      → fetch_authority_nodes decode_hex decode_list inspected ≡ done nodes
      → IsListed inspected nodes
  unfolding fetch_authority_nodes
  fetch_authority_nodes-IsListed inspected h =
      let (response, e, h1) = >>=-eq-done (returned inspected) _ h in
      with_response-IsListed inspected response (returned-done inspected e) h1
