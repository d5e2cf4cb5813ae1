-- ===== src/UnitTests/Examples.antt =====
-- Three tests on four ranks.
use vnv.Base.{ℕ, ◌≡◌, ◌<◌, ◌≤◌, refl, List, [], ◌∷◌, some, Str, str, str_key, arith, get_elem?}
use vnv.Base.Dict.{find, assign}
use vnv.UnitTests.{
  UnitTest, Placement, begin_sharing, turn, turns, UnitTestStore, add_unit_tester, get_unit_tester,
}
use vnv.UnitTests.Ending.{turns_end}
use vnv.UnitTests.Ranks.{turns_collective, turns_inside}

abbrev needs : ℕ → Str → UnitTest
needs n name = record { cores = n; package_name = str "P"; name = name }

abbrev three : List UnitTest
three = needs 3 (str "a") ∷ needs 2 (str "b") ∷ needs 1 (str "c") ∷ []

abbrev placed : Placement
placed = record { start = 0; stop = 3; test = needs 3 (str "a") }

-- The first batch has the test of three ranks and, on the last rank, that of one.
first_batch :
    (turns 4 3 3 (begin_sharing three)).batches
    ≡ some (record { start = 3; stop = 4; test = needs 1 (str "c") }) ∷ []
unfolding turns turn
first_batch = refl

turns_collective_example :
    get_elem? (turns 4 2 3 (begin_sharing three)).batches 0 ≡ some (some placed)
unfolding turns turn
turns_collective_example = turns_collective 4 0 2 three 3 0 placed refl (omega arith) (omega arith)

turns_inside_example : (0 ≤ 0) × (0 < 3) × (3 ≤ 4)
unfolding turns turn
turns_inside_example = turns_inside 4 0 three 3 0 placed refl

abbrev empty_store : UnitTestStore
empty_store = record { tester_factory = []; tester_cores = [] }

added :
    get_unit_tester (str "P") (str "a") (add_unit_tester (str "P") (str "a") 7 3 empty_store)
    ≡ some 7
unfolding get_unit_tester add_unit_tester find assign
added = refl

turns_end_example :
    ((turns 4 0 19 (begin_sharing three)).passed ≡ [])
    × ((turns 4 0 19 (begin_sharing three)).left ≡ [])
turns_end_example = turns_end 4 0 three
