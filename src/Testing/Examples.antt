-- ===== src/Testing/Examples.antt =====
-- The store of tests at work.
use vnv.Base.{ok, ◌≡◌, refl, Bool, true, List, [], ◌∷◌, some, Str, str, str_key}
use vnv.Base.Dict.{Dict, find}
use vnv.Json.{Json, string, object, field, done, null}
use vnv.Testing.{TestConfig, TestStore, add_test, get_test, validate_tests}
use vnv.Testing.Validation.{
  IsCoherent, accepted_all, validate_tests-eq-accepted, add_test-IsCoherent,
}

abbrev yes : Json → Json → Bool
yes schema value = true

abbrev declaration : Str → Json
declaration name =
    object (field (str "name") (string name) (field (str "package") (string (str "P")) done))

abbrev factory : Dict Str Json
factory = (str "P:norm", null) ∷ []

empty-IsCoherent : IsCoherent factory []
unfolding find
empty-IsCoherent = record { cached = λ k w h. cc }

abbrev two : List Json
two = declaration (str "norm") ∷ declaration (str "other") ∷ []

validate_tests-eq-accepted_example :
    ((validate_tests yes factory two []).0 ≡ accepted_all yes factory two)
    × IsCoherent factory (validate_tests yes factory two []).1
validate_tests-eq-accepted_example = validate_tests-eq-accepted yes factory two [] empty-IsCoherent

abbrev test_store : TestStore
test_store = record { test_factory = factory; registered_tests = []; uid = 0 }

add_test-IsCoherent_sample :
    IsCoherent (add_test (str "P") (str "max") null test_store).test_factory []
add_test-IsCoherent_sample =
    add_test-IsCoherent (str "P") (str "max") null test_store [] empty-IsCoherent

abbrev norm : TestConfig
norm = record {
  package_name = str "P";
  test_name = str "norm";
  test_config_json = null;
  run_template_name = null;
}

numbered : get_test (λ c. ok tt) norm [] test_store ≡ (
  ok (some (record { uuid = 0; config = norm; parameters = [] })),
  record test_store { uid = 1 },
)
unfolding get_test find
numbered = refl
