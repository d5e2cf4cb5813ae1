-- ===== src/Testing.antt =====
-- Tests and their store: injection/src/base/stores/TestStore.cpp, injection/src/interfaces/ITest.cpp,
-- and getTestValidationSchema of injection/src/base/parser/JsonSchema.cpp. A registered maker builds
-- an ITest; what a test does when it runs is given by the plug-ins.
pub mod Runs
pub mod Validation
mod Examples
use vnv.Base.{
  ℕ, ◌+◌, Bool, true, false, List, [], ◌∷◌, ◌++◌, Option, none, some, Str, str, if◌then◌else◌,
  Outcome, ok, raise, text, standard, vnv_exception, Act, pure, throw, ◌>>=◌, ◌>>◌, str_key,
}
use vnv.Base.Dict.{Dict, find, assign, insert}
use vnv.Json.{
  Json, Items, Fields, object, string, array, nil, cons, done, field, boolean, find_member,
  get_string, empty_object,
}

pub record VnVParameter : Type 0 where
  pub ptr : ℕ
  pub type : Str

abbrev pub VnVParameterSet : Type 0
VnVParameterSet = Dict Str VnVParameter

pub record TestConfig : Type 0 where
  pub package_name : Str
  pub test_name : Str
  pub test_config_json : Json
  pub run_template_name : Json

-- An ITest, with the parameters of its injection point.
pub record Test : Type 0 where
  pub uuid : ℕ
  pub config : TestConfig
  pub parameters : VnVParameterSet

-- `uid` is the counter ITest::uid.
pub record TestStore : Type 0 where
  pub test_factory : Dict Str Json
  pub registered_tests : Dict Str Json
  pub uid : ℕ

-- package + ":" + name
abbrev pub key : Str → Str → Str
key package_name name = package_name ++ b':' ∷ name

-- A package that registers a test again keeps the first registration.
pub add_test : Str → Str → Json → TestStore → TestStore
add_test package_name name schema store = record store {
  test_factory = insert (key package_name name) schema store.test_factory;
}

-- The maker of a test, as far as it may throw.
abbrev pub Maker : Type 0
Maker = TestConfig → Outcome (Unit {0})

-- A maker that throws does so behind ITest's constructor, which has counted the test.
unfoldable pub get_test : Maker → TestConfig → VnVParameterSet → Act TestStore (Option Test)
get_test make config parameters store =
    elim (find (key config.package_name config.test_name) store.test_factory) [
      | none ↦ (ok none, store)
      | some schema ↦ elim (make config) [
        | raise e ↦ (raise e, record store { uid = store.uid + 1 })
        | ok _ ↦ (
          ok (some (record { uuid = store.uid; config = config; parameters = parameters })),
          record store { uid = store.uid + 1 },
        )
      ]
    ]

-- The keys of each object in order.
abbrev pub get_test_validation_schema : Json → Json
get_test_validation_schema schema = object (
    field (str "$schema") (string (str "http://json-schema.org/draft-07/schema#")) (
      field (str "description") (string (str "Schema for verifying test. ")) (
        field (str "properties")
          (object (field (str "configuration") schema (field (str "parameters") parameters done)))
          (field (str "required") (array (cons (string (str "configuration")) nil)) (
            field (str "title") (string (str "Test Declaration Schema"))
              (field (str "type") (string (str "object")) done))))))
  where
    parameters : Json
    parameters = object (
        field (str "additionalProperties") (boolean false) (
          field (str "properties") empty_object
            (field (str "required") (array nil) (field (str "type") (string (str "object")) done))))

-- The wrapped schema of a test, from the cache or into it.
test_schema : Str → Json → Act (Dict Str Json) Json
test_schema k schema cache = elim (find k cache) [
  | none ↦
      (ok (get_test_validation_schema schema), assign k (get_test_validation_schema schema) cache)
  | some cached ↦ (ok cached, cache)
]

required_string : Str → Json → Outcome Str
required_string k j = elim (find_member k j) [ none ↦ raise standard | some v ↦ get_string v ]

abbrev lift {ℓ} : {S : Type 0} {A : Type ℓ} → Outcome A → Act S A
lift o s = (o, s)

abbrev test_config_of : Json → Json
test_config_of test_json = elim (find_member (str "config") test_json) [
  | none ↦ object (field (str "configuration") empty_object done)
  | some config ↦ object (field (str "configuration") config done)
]

-- `validates schema value` says whether the JSON schema validator accepts the value.
module _ (validates : Json → Json → Bool) where
  -- The part behind the lookup of the factory.
  check_config : Str → Str → Json → Json → Outcome TestConfig
  check_config package_name name test_json schema =
      if validates schema (test_config_of test_json)
      then ok (record {
        package_name = package_name;
        test_name = name;
        test_config_json = test_config_of test_json;
        run_template_name = elim (find_member (str "template") test_json) [
          | none ↦ empty_object
          | some t ↦ t
        ];
      })
      else raise standard

  -- The state is the cache of wrapped schemas, registeredTests.
  validate_found : Str → Str → Json → Option Json → Act (Dict Str Json) TestConfig
  unfolding test_schema check_config
  validate_found package_name name test_json none = throw text
  validate_found package_name name test_json (some schema) = do
    wrapped ← test_schema (key package_name name) schema
    lift (check_config package_name name test_json wrapped)

  validate_test : Dict Str Json → Json → Act (Dict Str Json) TestConfig
  unfolding validate_found required_string
  validate_test factory test_json = elim (find_member (str "name") test_json) [
    | none ↦ throw text
    | some n ↦ do
      name ← lift (get_string n)
      package_name ← lift (required_string (str "package") test_json)
      validate_found package_name name test_json (find (key package_name name) factory)
  ]

  -- `catch (...)` drops the test and goes on.
  abbrev keep_valid : Outcome TestConfig → List TestConfig → List TestConfig
  keep_valid (ok c) rest = c ∷ rest
  keep_valid (raise e) rest = rest

  pub validate_tests : Dict Str Json → List Json → Dict Str Json → List TestConfig × Dict Str Json
  validate_tests factory [] cache = ([], cache)
  validate_tests factory (j ∷ js) cache =
      let (o, cache') = validate_test factory j cache in
      let (rest, cache'') = validate_tests factory js cache' in (keep_valid o rest, cache'')
