-- ===== src/Comms/Maps.antt =====
-- What is made of the graph of the communicators: the roots, and the map of those that can be
-- reached from them, in injection/include/base/communication/CommMapper.h and
-- injection/src/base/communication/CommMapper.cpp.
use vnv.Base.{
  ℕ, zero, suc, Bool, true, false, ◌&&◌, List, [], ◌∷◌, Option, none, some, length, if◌then◌else◌,
  nat_key,
}
use vnv.Base.Dict.{find, insert, contains}
use vnv.Comms.{CommWrap, CommMap}

abbrev pub is_empty : List ℕ → Bool
is_empty [] = true
is_empty (x ∷ l) = false

abbrev pub is_root : CommWrap → Bool
is_root w = is_empty w.parents && (if is_empty w.contents then false else true)

-- The roots that getCommMap returns, from the map that it built.
abbrev pub root_comms : CommMap → List ℕ
root_comms [] = []
root_comms ((id, w) ∷ map) = if is_root w then id ∷ root_comms map else root_comms map

-- `none` is its null pointer.
abbrev pub get_root_communicator : CommMap → Option ℕ
get_root_communicator [] = none
get_root_communicator ((id, w) ∷ map) = if is_root w then some id else get_root_communicator map

-- A loop over pointers, with the call on each of them. `none` is a call that has not ended.
abbrev pub over : (ℕ → CommMap → Option CommMap) → List ℕ → CommMap → Option CommMap
over call [] comms = some comms
over call (p ∷ ps) comms = elim (call p comms) [ none ↦ none | some comms' ↦ over call ps comms' ]

-- Reading through a pointer: `map` holds the objects.
unfoldable pub comms_map_set_to_map : ℕ → CommMap → ℕ → CommMap → Option CommMap
comms_map_set_to_map zero map ptr comms = none
comms_map_set_to_map (suc n) map ptr comms =
    if contains ptr comms then some comms else elim (find ptr map) [
      | none ↦ some comms
      | some w ↦ over (λ p c. comms_map_set_to_map n map p c) w.children (insert ptr w comms)
    ]

-- The calls inside each other are one more than the objects at the most.
abbrev pub convert_to_map : CommMap → List ℕ → Option CommMap
convert_to_map map roots = over (λ p c. comms_map_set_to_map (suc (length map)) map p c) roots []
