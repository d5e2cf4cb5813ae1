-- ===== src/Parsing/Examples.antt =====
-- Three tests of two points, with one scope to be run.
use vnv.Base.{
  ℕ, ◌≡◌, refl, List, [], ◌∷◌, ok, raise, vnv_exception, Str, str, str_key, true, false,
  if◌then◌else◌, ◌==◌,
}
use vnv.Base.Dict.{find, assign}
use vnv.Json.{Json, done, field, nil, cons, object, array, string, boolean, empty_object}
use vnv.Logging.{off}
use vnv.Parsing.{Points, add_test, add_tests, add_injection_point, scopes_from, injection_points_of}
use vnv.Parsing.Scopes.{AllInScope, injection_points_of-AllInScope}
use vnv.Parsing.Sections.{
  get_logger_info, get_unit_test_info, get_workflow_info, add_workflows, add_command_line_plugins,
  command_line_from, command_line_parser,
}

-- Splitting at every colon.
abbrev with_first : ℕ → List Str → List Str
with_first c [] = (c ∷ []) ∷ []
with_first c (s ∷ l) = (c ∷ s) ∷ l

abbrev split : Str → List Str
split [] = [] ∷ []
split (c ∷ s) = if c == 58 then [] ∷ split s else with_first c (split s)

abbrev scope : Str → Json
scope s = object (field (str "runScope") (array (cons (string s) nil)) done)

abbrev main_file : Json
main_file = object (
    field (str "injectionPoints")
      (object (
        field (str "P:a")
          (object (
            field (str "runScope") (array (cons (string (str "fast")) nil)) (
              field (str "tests")
                (object (
                  field (str "P:t") (scope (str "fast"))
                    (field (str "P:u") (scope (str "slow")) done)))
                done)))
          (field (str "P:b") (scope (str "slow")) done)))
      (field (str "runScopes") (array (cons (string (str "fast")) nil)) done))

-- The test out of scope is not there, and neither is the point.
abbrev found : Points
found = record {
  all_on = false;
  ips =
      (
        str "P:a",
        record {
          package_name = str "P";
          name = str "a";
          tests =
              object (
                field (str "name") (string (str "t")) (
                  field (str "package") (string (str "P"))
                    (field (str "runScope") (array (cons (string (str "fast")) nil)) done)))
              ∷ [];
          template_name = empty_object;
          sampler = record { package_name = []; name = []; config = empty_object };
          run_internal = true;
        },
      )
      ∷ [];
  all_on_tests = [];
}

points_found : injection_points_of split main_file ≡ ok found
unfolding add_injection_point add_tests add_test scopes_from find assign
points_found = refl

injection_points_of-AllInScope_example : AllInScope split (str "fast" ∷ []) found
unfolding scopes_from
injection_points_of-AllInScope_example =
    injection_points_of-AllInScope split main_file (str "fast" ∷ []) found refl points_found

logging_off :
    get_logger_info (object (field (str "on") (boolean false) done))
    ≡ ok (record {
      on = false;
      engine = true;
      type = off;
      filename = [];
      logs = [];
      black_list = [];
    })
unfolding get_logger_info
logging_off = refl

plugin_added :
    add_command_line_plugins (str "x" ∷ str "--vnv-plugin" ∷ str "P" ∷ str "p.so" ∷ []) []
    ≡ ok ((str "P", str "p.so") ∷ [])
unfolding add_command_line_plugins assign
plugin_added = refl

plugin_incomplete :
    add_command_line_plugins (str "--vnv-plugin" ∷ str "P" ∷ []) [] ≡ raise vnv_exception
unfolding add_command_line_plugins
plugin_incomplete = refl

options :
    command_line_parser (str "--vnv-a" ∷ str "1" ∷ [])
    ≡ ok (object (field (str "a") (string (str "1")) done))
unfolding command_line_from
options = refl

workflow_kept :
    get_workflow_info split (object (field (str "P:w") empty_object done))
    ≡ ok (record { run = true; quit = true; workflows = (str "P", str "w", empty_object) ∷ [] })
unfolding add_workflows
workflow_kept = refl

tests_not_named :
    get_unit_test_info (object (field (str "runTests") (boolean false) done))
    ≡ ok (record {
      run_unit_tests = false;
      unit_test_config = empty_object;
      exit_after_tests = false;
    })
unfolding get_unit_test_info
tests_not_named = refl
