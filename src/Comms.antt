-- ===== src/Comms.antt =====
-- The communicators that were seen, and how they contain each other: CommWrap and CommMapper of
-- injection/include/base/communication/CommMapper.h and
-- injection/src/base/communication/CommMapper.cpp. A pointer to a CommWrap is the id under which the
-- map has it; the graph is taken as it was built.
pub mod Visits
pub mod Chains
pub mod Ids
pub mod Maps
pub mod Descent
mod Examples
use vnv.Base.{
  ℕ, zero, suc, ◌+◌, Bool, true, false, ◌||◌, List, [], ◌∷◌, ◌++◌, Option, none, some, length,
  if◌then◌else◌, ◌==◌, ltb, any, nat_key,
}
use vnv.Base.Dict.{Dict, find, insert, contains}

pub record CommWrap : Type 0 where
  pub children : List ℕ
  pub parents : List ℕ
  pub contents : List ℕ

abbrev pub CommMap : Type 0
CommMap = Dict ℕ CommWrap

abbrev pub has : ℕ → List ℕ → Bool
has x l = any (λ y. x == y) l

abbrev pub links_of : Option CommWrap → List ℕ
links_of none = []
links_of (some w) = w.parents ++ w.children

-- The parents, and then the children.
unfoldable pub neighbours : CommMap → ℕ → List ℕ
neighbours map id = links_of (find id map)

-- The loops of inCommChain over the parents and the children, with the call on each of them.
-- `none` is a call that has not ended.
abbrev pub search :
    ℕ → (ℕ → List ℕ → Option (Bool × List ℕ)) → List ℕ → List ℕ → Option (Bool × List ℕ)
search comm call [] visited = some (false, visited)
search comm call (p ∷ ps) visited =
    if comm == p then some (true, visited) else elim (call p visited) [
      | none ↦ none
      | some r ↦ if r.0 then some (true, r.1) else search comm call ps r.1
    ]

-- inCommChain with the ids that were visited, on fuel.
unfoldable pub in_comm_chain_from : ℕ → CommMap → ℕ → ℕ → List ℕ → Option (Bool × List ℕ)
in_comm_chain_from zero map comm id visited = none
in_comm_chain_from (suc n) map comm id visited =
    if comm == id
    then some (true, visited)
    else if has id visited
    then some (false, visited)
    else search comm (λ p v. in_comm_chain_from n map comm p v) (neighbours map id) (id ∷ visited)

abbrev pub answer_of : Option (Bool × List ℕ) → Option Bool
answer_of none = none
answer_of (some r) = some r.0

-- One call for every node, and one more, is enough.
abbrev pub in_comm_chain : CommMap → ℕ → ℕ → Option Bool
in_comm_chain map comm id = answer_of (in_comm_chain_from (suc (length map)) map comm id [])

-- searchNodeInMainNodeCommChain; `none` is its exception for a node that the map does not have.
abbrev pub search_node_in_main_node_comm_chain : CommMap → ℕ → ℕ → Option (Option Bool)
search_node_in_main_node_comm_chain map main_node search_node =
    if contains main_node map then some (in_comm_chain map search_node main_node) else none

abbrev pub insert_id : ℕ → List ℕ → List ℕ
insert_id id l = if has id l then l else id ∷ l

abbrev pub collect : (ℕ → List ℕ → Option (List ℕ)) → List ℕ → List ℕ → Option (List ℕ)
collect call [] result = some result
collect call (p ∷ ps) result = elim (call p result) [ none ↦ none | some r ↦ collect call ps r ]

-- getCommChain with the ids that were found, on fuel. It goes on where the id is in the result.
unfoldable pub get_comm_chain_from : ℕ → CommMap → ℕ → List ℕ → Option (List ℕ)
get_comm_chain_from zero map id result = none
get_comm_chain_from (suc n) map id result =
    if has id result
    then collect (λ p r. get_comm_chain_from n map p r) (neighbours map id) (insert_id id result)
    else some result

abbrev pub get_comm_chain : CommMap → ℕ → Option (List ℕ)
get_comm_chain map id = get_comm_chain_from (suc (length map)) map id []

pub record CommMapper : Type 0 where
  pub comms : List ℕ
  pub root_comms : List ℕ

-- logComm of a communicator with this id, on a rank of it.
abbrev pub log_comm : (id rank : ℕ) → CommMapper → CommMapper
log_comm id rank mapper = record {
  comms = insert_id id mapper.comms;
  root_comms = if rank == 0 then insert_id id mapper.root_comms else mapper.root_comms;
}

abbrev pub is_new : ℕ → CommMapper → Bool
is_new id mapper = if has id mapper.comms then false else true

abbrev pub max_ℕ : ℕ → ℕ → ℕ
max_ℕ a b = if ltb a b then b else a

-- AllReduce with OpType::MAX
abbrev pub maximum : List ℕ → ℕ
maximum [] = 0
maximum (x ∷ xs) = max_ℕ x (maximum xs)

-- The counters of the ranks, and the values that they bring.
abbrev pub raised : List ℕ → List ℕ → List ℕ
raised (id ∷ ids) (my_val ∷ my_vals) = (if ltb id my_val then my_val else id) ∷ raised ids my_vals
raised ids my_vals = ids

abbrev pub all_at : ℕ → List ℕ → List ℕ
all_at n [] = []
all_at n (id ∷ ids) = n ∷ all_at n ids

-- getNextId on all the ranks: the id that each returns, and the counters behind it.
abbrev pub get_next_id : List ℕ → List ℕ → ℕ × List ℕ
get_next_id ids my_vals = let recv = maximum (raised ids my_vals) in (recv, all_at (recv + 1) ids)
