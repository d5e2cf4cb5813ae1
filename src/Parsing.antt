-- ===== src/Parsing.antt =====
-- The input file: injection/src/base/parser/JsonParser.cpp, on values that the schema may not have
-- accepted. An assert that fails, and a piece of a name that is not there, is undefined. How
-- StringUtils::StringSplit splits at a colon comes from outside the repository.
pub mod Scopes
pub mod Sections
mod Examples
use vnv.Base.{
  ℕ, zero, suc, Bool, true, false, not, ◌&&◌, ◌||◌, List, [], ◌∷◌, ◌++◌, Option, none, some,
  Outcome, ok, raise, fault, vnv_exception, standard, Str, str, str_eq, str_key, if◌then◌else◌, any,
  bind,
}
use vnv.Base.Dict.{Dict, find, assign, insert}
use vnv.Json.{
  Json, null, object, array, string, boolean, members, elements, find_member, put, get_string,
  get_bool, empty_object,
}
use vnv.Logging.{LogWriteType, stdout, stderr, file, off}

-- `j.items()`, with the empty key where there is none.
abbrev pub unnamed : List Json → List (Str × Json)
unnamed [] = []
unnamed (v ∷ vs) = ([], v) ∷ unnamed vs

abbrev pub items : Json → List (Str × Json)
items null = []
items (object fs) = members fs
items (array vs) = unnamed (elements vs)
items v = ([], v) ∷ []

abbrev pub is_in : Str → List Str → Bool
is_in s l = any (λ x. str_eq s x) l

-- The scopes of a test, one of which is to be run.
abbrev pub any_scope : List Str → List (Str × Json) → Outcome Bool
any_scope scopes [] = ok false
any_scope scopes ((k, v) ∷ vs) =
    let rest = any_scope scopes vs in
    bind (get_string v) λ s. if is_in s scopes then ok true else rest

abbrev pub scoped : List Str → Option Json → Outcome Bool
scoped scopes none = ok false
scoped scopes (some scope) = any_scope scopes (items scope)

-- JsonParser::add
abbrev pub add : Json → List Str → Outcome Bool
add test_json [] = ok true
add test_json (s ∷ scopes) = scoped (s ∷ scopes) (find_member (str "runScope") test_json)

pub record SamplerInfo : Type 0 where
  pub package_name : Str
  pub name : Str
  pub config : Json

pub record InjectionPointInfo : Type 0 where
  pub package_name : Str
  pub name : Str
  pub tests : List Json
  pub template_name : Json
  pub sampler : SamplerInfo
  pub run_internal : Bool

abbrev pub no_sampler : SamplerInfo
no_sampler = record { package_name = []; name = []; config = empty_object }

-- What addInjectionPoint fills: `all_on`, `ips` and `all_on_tests`.
pub record Points : Type 0 where
  pub all_on : Bool
  pub ips : Dict Str InjectionPointInfo
  pub all_on_tests : List Json

module _ (split : Str → List Str) where
  abbrev pub two_pieces : List Str → Outcome (Str × Str)
  two_pieces (p ∷ n ∷ []) = ok (p, n)
  two_pieces l = raise fault

  abbrev pub kept : Bool → Json → List Json → List Json
  kept true t configs = configs ++ t ∷ []
  kept false t configs = configs

  unfoldable pub add_test : Str → Json → List Json → List Str → Outcome (List Json)
  add_test key test_json configs scopes = bind (two_pieces (split key)) λ r.
      bind (put (str "name") (string r.1) test_json) λ named.
        bind (put (str "package") (string r.0) named)
          λ t. bind (add test_json scopes) λ in_scope. ok (kept in_scope t configs)

  unfoldable pub add_tests : List (Str × Json) → List Json → List Str → Outcome (List Json)
  add_tests [] configs scopes = ok configs
  add_tests ((k, v) ∷ l) configs scopes =
      bind (add_test k v configs scopes) λ configs'. add_tests l configs' scopes

  -- The tests of a point, where it has any.
  abbrev pub tests_of : Json → List Json → List Str → Outcome (List Json)
  tests_of values configs scopes = elim (find_member (str "tests") values) [
    | none ↦ ok configs
    | some tests ↦ add_tests (items tests) configs scopes
  ]

  abbrev pub get_sampler_info : Json → Outcome SamplerInfo
  get_sampler_info sampler_json = elim (items sampler_json) [
    | (kv ∷ []) ↦
        bind (two_pieces (split kv.0))
          λ s. ok (record { package_name = s.0; name = s.1; config = kv.1 })
    | l ↦ raise fault
  ]

  abbrev pub sampler_of : Json → SamplerInfo → Outcome SamplerInfo
  sampler_of values old = elim (find_member (str "sampler") values) [
    | none ↦ ok old
    | some s ↦ get_sampler_info s
  ]

  abbrev pub run_internal_of : Json → Outcome Bool
  run_internal_of values = elim (find_member (str "runInternal") values) [
    | none ↦ ok true
    | some b ↦ get_bool b
  ]

  abbrev pub template_of : Json → Json
  template_of values = elim (find_member (str "template") values) [
    | none ↦ empty_object
    | some t ↦ t
  ]

  -- A point that is there already gets more tests, and another sampler.
  abbrev pub more_of : InjectionPointInfo → Json → List Str → Outcome InjectionPointInfo
  more_of info values scopes = bind (tests_of values info.tests scopes) λ tests.
      bind (sampler_of values info.sampler)
        λ sampler. ok (record info { tests = tests; sampler = sampler })

  abbrev pub new_info : Str → Json → List Str → Outcome InjectionPointInfo
  new_info key values scopes = bind (two_pieces (split key)) λ res.
      bind (tests_of values [] scopes) λ tests. bind (sampler_of values no_sampler) λ sampler.
        bind (run_internal_of values) λ run_internal. ok (record {
          package_name = res.0;
          name = res.1;
          tests = tests;
          template_name = template_of values;
          sampler = sampler;
          run_internal = run_internal;
        })

  abbrev pub is_wanted : InjectionPointInfo → Bool
  is_wanted info = elim info.tests [ [] ↦ info.run_internal | t ∷ ts ↦ true ]

  abbrev pub insert_wanted : Str → InjectionPointInfo → Points → Points
  insert_wanted key info s = if is_wanted info then record s { ips = insert key info s.ips } else s

  abbrev pub point_of : Str → Json → List Str → Points → Outcome Points
  point_of key values scopes s = elim (find key s.ips) [
    | some info ↦
        bind (more_of info values scopes) λ info'. ok (record s { ips = assign key info' s.ips })
    | none ↦ bind (new_info key values scopes) λ info. ok (insert_wanted key info s)
  ]

  abbrev pub one_member : Str → Json → List Str → Points → Outcome Points
  one_member key value scopes s =
      if str_eq key (str "runAll")
      then (bind (get_bool value) λ b. ok (record s { all_on = b }))
      else if str_eq key (str "runAll_tests")
      then (bind (add_tests (items value) s.all_on_tests scopes)
          λ tests. ok (record s { all_on_tests = tests }))
      else bind (add value scopes)
          λ in_scope. if in_scope then point_of key value scopes s else ok s

  unfoldable pub add_injection_point : List (Str × Json) → List Str → Points → Outcome Points
  add_injection_point [] scopes s = ok s
  add_injection_point ((k, v) ∷ l) scopes s =
      bind (one_member k v scopes s) λ s'. add_injection_point l scopes s'

  abbrev pub no_points : Points
  no_points = record { all_on = false; ips = []; all_on_tests = [] }

  -- The part of _parse that reads the run scopes and the injection points.
  unfoldable pub scopes_from : List (Str × Json) → List Str → Outcome (List Str)
  scopes_from [] scopes = ok scopes
  scopes_from ((k, v) ∷ l) scopes =
      bind (get_string v) λ s. scopes_from l (if is_in s scopes then scopes else s ∷ scopes)

  abbrev pub run_scopes : Json → Outcome (List Str)
  run_scopes main = elim (find_member (str "runScopes") main) [
    | none ↦ ok []
    | some v ↦ scopes_from (items v) []
  ]

  abbrev pub points_in : Option Json → List Str → Outcome Points
  points_in none scopes = ok no_points
  points_in (some ip) scopes = add_injection_point (items ip) scopes no_points

  abbrev pub injection_points_of : Json → Outcome Points
  injection_points_of main =
      bind (run_scopes main) λ scopes. points_in (find_member (str "injectionPoints") main) scopes
