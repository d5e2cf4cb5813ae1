-- ===== src/Streams/Reports.antt =====
-- What the engine sends first: getNodeMap and sendInfoNode of
-- injection/include/plugins/engines/streamtemplate.h.
use vnv.Base.{
  ℕ, suc, ◌≡◌, refl, sym, ap, ◌∙◌, Bool, true, false, List, [], ◌∷◌, ◌++◌, Option, none, some, Str,
  if◌then◌else◌, ◌==◌, ==_iff, Act, ◌>>◌, nat_key, length, arith, Option-cases, inl, inr,
}
use vnv.Base.Dict.{Dict, find, assign, find-assign}
use mathlib.Core.List.{append-nil, append_assoc}
use vnv.Json.{Json}
use vnv.Streams.{Files, Communicator, info, Manager, write_at_root, set_comm}

-- `j[proc].push_back(i)`, or `j[proc] = {i}` where there is no such key. The keys are the hashes,
-- which the source prints.
abbrev pub add_rank : ℕ → ℕ → Dict ℕ (List ℕ) → Dict ℕ (List ℕ)
add_rank hash rank j = elim (find hash j) [
  | none ↦ assign hash (rank ∷ []) j
  | some ranks ↦ assign hash (ranks ++ rank ∷ []) j
]

-- The loop over the hashes that the ranks sent, from rank `i` on.
pub node_map_from : ℕ → List ℕ → Dict ℕ (List ℕ) → Dict ℕ (List ℕ)
node_map_from i [] j = j
node_map_from i (hash ∷ hashes) j = node_map_from (suc i) hashes (add_rank hash i j)

-- On the root; the other ranks get an empty object.
pub get_node_map : (rank : ℕ) → List ℕ → Dict ℕ (List ℕ)
unfolding node_map_from
get_node_map rank hashes = if rank == 0 then node_map_from 0 hashes [] else []

-- `hashes` is what the world's root gathers.
pub send_info_node :
    (good : Files) (world : Communicator) (hashes : List ℕ) (full_json prov : Json)
    (workflow_name workflow_job : Str)
    → Act Manager (Unit {0})
unfolding get_node_map set_comm write_at_root
send_info_node good world hashes full_json prov workflow_name workflow_job =
    set_comm good world none
    >> write_at_root good (
        info (length world.world_ranks) full_json prov (get_node_map world.rank hashes)
          workflow_name workflow_job)

-- The ranks, counted from `i` on, whose hash is the given one.
abbrev pub ranks_on : ℕ → ℕ → List ℕ → List ℕ
ranks_on hash i [] = []
ranks_on hash i (h ∷ hashes) =
    if hash == h then i ∷ ranks_on hash (suc i) hashes else ranks_on hash (suc i) hashes

abbrev pub found_or_none : Option (List ℕ) → List ℕ
found_or_none none = []
found_or_none (some l) = l

found_after :
    (hash h i : ℕ) (j : Dict ℕ (List ℕ))
    → found_or_none (find hash (add_rank h i j))
      ≡ (if hash == h then found_or_none (find hash j) ++ i ∷ [] else found_or_none (find hash j))
found_after hash h i j = elim (Option-cases (find h j)) [
  | inl missing ↦ ground (arith, missing, ==_iff hash h, find-assign hash h (i ∷ []) j)
  | inr (l, there) ↦ ground (arith, there, ==_iff hash h, find-assign hash h (l ++ i ∷ []) j)
]

found_from :
    (hash i : ℕ) (hashes : List ℕ) (j : Dict ℕ (List ℕ))
    → found_or_none (find hash (node_map_from i hashes j))
      ≡ found_or_none (find hash j) ++ ranks_on hash i hashes
unfolding node_map_from
found_from hash i [] j = sym (append-nil _)
found_from hash i (h ∷ hashes) j =
    found_from hash (suc i) hashes (add_rank h i j)
    ∙ ap (λ l. l ++ ranks_on hash (suc i) hashes) (found_after hash h i j)
    ∙ regroup (hash == h) (found_or_none (find hash j))
  where
    regroup :
        (b : Bool) (l : List ℕ)
        → (if b then l ++ i ∷ [] else l) ++ ranks_on hash (suc i) hashes
          ≡ l ++ (if b then i ∷ ranks_on hash (suc i) hashes else ranks_on hash (suc i) hashes)
    regroup true l = append_assoc l (i ∷ []) (ranks_on hash (suc i) hashes)
    regroup false l = refl

-- On the root, the node map lists under each hash the ranks that sent it, in their order, and the
-- ranks of a hash that none sent are none.
pub get_node_map-lists :
    (hash : ℕ) (hashes : List ℕ)
    → found_or_none (find hash (get_node_map 0 hashes)) ≡ ranks_on hash 0 hashes
unfolding get_node_map find
get_node_map-lists hash hashes = found_from hash 0 hashes []
