-- ===== src/Stores/Examples.antt =====
-- An engine with a schema, and one package with options.
use vnv.Base.{
  ◌≡◌, refl, [], none, some, Outcome, ok, raise, vnv_exception, Str, str, str_key, true, false,
}
use vnv.Base.Dict.{find, assign}
use vnv.Json.{Json, object, field, done, empty_object, string}
use vnv.Stores.{
  OutputEngineStore, Checks, register_engine, get_engine_manager, set_engine_manager,
  OptionsParserStore, no_callback, add_options, call_back, parse_from, parse, get_result,
  get_schema,
}

abbrev checks : Checks Str
checks = record { validate = λ schema config. ok tt; set_up = λ m config type. ok m }

abbrev engine_schema : Json
engine_schema = object (field (str "type") (string (str "object")) done)

abbrev fresh : OutputEngineStore Str
fresh = record {
  registered_engines = [];
  registered_engine_schema = [];
  manager = none;
  initialized = false;
  engine_name = [];
}

abbrev engines : OutputEngineStore Str
engines = register_engine (str "stdout") (ok (some (str "m"))) (ok engine_schema) fresh

initialised : set_engine_manager checks (str "stdout") empty_object engines ≡ (
  ok tt,
  record engines { manager = some (str "m"); initialized = true; engine_name = str "stdout" },
)
unfolding set_engine_manager find assign
initialised = refl

unknown : (set_engine_manager checks (str "x") empty_object engines).0 ≡ raise vnv_exception
unfolding set_engine_manager find assign
unknown = refl

no_manager : (get_engine_manager fresh).0 ≡ raise vnv_exception
no_manager = refl

abbrev accept : Json → Json → Outcome (Unit {0})
accept schema info = ok tt

abbrev options : OptionsParserStore Json
options =
    add_options accept (λ j. j) (str "P") engine_schema no_callback
      (record { factory = []; option_result = [] })

raw_result :
    get_result accept (λ j. j) (str "P") (parse accept (λ j. j) empty_object options).1
    ≡ some empty_object
unfolding parse_from call_back find assign
raw_result = refl

schema_found : get_schema accept (λ j. j) (str "P") options ≡ ok engine_schema
unfolding find assign
schema_found = refl
