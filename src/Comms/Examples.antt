-- ===== src/Comms/Examples.antt =====
-- The world, two communicators of two ranks that share one, and one apart.
use vnv.Base.{ℕ, ◌≤◌, ◌<◌, ◌≡◌, ◌↔◌, refl, Bool, true, false, List, [], ◌∷◌, some, nat_key}
use vnv.Base.Dict.{find, contains, assign}
use vnv.Comms.{
  CommMap, CommWrap, neighbours, in_comm_chain_from, in_comm_chain,
  search_node_in_main_node_comm_chain, get_comm_chain_from, get_comm_chain, get_next_id, log_comm,
  is_new,
}
use vnv.Comms.Visits.{Reaches, In}
use vnv.Comms.Ids.{ids_increase}
use vnv.Comms.Chains.{in_comm_chain-Reaches}
use vnv.Comms.Maps.{comms_map_set_to_map, convert_to_map, root_comms, get_root_communicator}
use vnv.Comms.Descent.{convert_to_map-Descends, Descends}

abbrev node : List ℕ → List ℕ → List ℕ → CommWrap
node children parents contents = record {
  children = children;
  parents = parents;
  contents = contents;
}

abbrev four : CommMap
four =
    (10, node [] (100 ∷ []) (0 ∷ 1 ∷ []))
    ∷ (20, node [] (100 ∷ []) (1 ∷ 2 ∷ []))
    ∷ (30, node [] [] (3 ∷ []))
    ∷ (100, node (10 ∷ 20 ∷ []) [] (0 ∷ 1 ∷ 2 ∷ []))
    ∷ []

connected : in_comm_chain four 20 10 ≡ some true
unfolding in_comm_chain_from neighbours find
connected = refl

apart : search_node_in_main_node_comm_chain four 10 30 ≡ some (some false)
unfolding in_comm_chain_from neighbours find
apart = refl

-- The chain of the world is empty.
empty_chain : get_comm_chain four 100 ≡ some []
unfolding get_comm_chain_from
empty_chain = refl

logged_once :
    log_comm 7 1 (log_comm 7 0 (record { comms = []; root_comms = [] }))
    ≡ record { comms = 7 ∷ []; root_comms = 7 ∷ [] }
logged_once = refl

not_new : is_new 7 (log_comm 7 0 (record { comms = []; root_comms = [] })) ≡ false
not_new = refl

in_comm_chain-Reaches_example :
    (b : Bool) × (in_comm_chain four 20 10 ≡ some b) × ((b ≡ true) ↔ Reaches four 20 10)
in_comm_chain-Reaches_example = in_comm_chain-Reaches four 20 10

ids_computed : ((3 ≤ 5) × ((5 ≤ 5) × Unit {0})) × (5 < (get_next_id (6 ∷ 6 ∷ []) (0 ∷ 0 ∷ [])).0)
ids_computed = ids_increase 0 (4 ∷ []) (3 ∷ 5 ∷ []) (0 ∷ 0 ∷ []) refl

roots : root_comms four ≡ 30 ∷ 100 ∷ []
roots = refl

first_root : get_root_communicator four ≡ some 30
first_root = refl

-- From the world alone, the one apart is not met.
without_apart : (r : CommMap) × (convert_to_map four (100 ∷ []) ≡ some r) × (contains 30 r ≡ false)
unfolding find assign comms_map_set_to_map
without_apart = (
  (10, node [] (100 ∷ []) (0 ∷ 1 ∷ []))
      ∷ (20, node [] (100 ∷ []) (1 ∷ 2 ∷ []))
      ∷ (100, node (10 ∷ 20 ∷ []) [] (0 ∷ 1 ∷ 2 ∷ []))
      ∷ [],
  refl,
  refl,
)

convert_to_map-Descends_example :
    (r : CommMap) × (convert_to_map four (100 ∷ []) ≡ some r)
    × ((k : ℕ) → (contains k r ≡ true) ↔ ((s : ℕ) × In s (100 ∷ []) × Descends four k s))
    × ((k : ℕ) (w : CommWrap) → find k r ≡ some w → find k four ≡ some w)
convert_to_map-Descends_example = convert_to_map-Descends four (100 ∷ [])
