-- ===== src/Stores.antt =====
-- The store of the output engine and that of the options of the packages:
-- injection/src/base/stores/OutputEngineStore.cpp and injection/src/base/stores/OptionsParserStore.cpp.
-- Engines and callbacks are plug-ins, and the validator is a parameter.
pub mod Engines
mod Examples
use vnv.Base.{
  Bool, true, false, List, [], ◌∷◌, Option, none, some, Outcome, ok, raise, fault, standard,
  vnv_exception, Exn, Act, pure, throw, ◌>>=◌, ◌>>◌, Str, str_key, if◌then◌else◌, catch_standard,
}
use vnv.Base.Dict.{Dict, find, assign, insert, contains}
use vnv.Json.{Json, null, object, array, done, nil, Items, Fields, cons, field}

-- `j.empty()`
abbrev pub is_empty : Json → Bool
is_empty null = true
is_empty (object done) = true
is_empty (array nil) = true
is_empty j = false

-- A maker gives an engine, a null pointer, or throws.
pub record OutputEngineStore (E : Type 0) : Type 0 where
  pub registered_engines : Dict Str (Outcome (Option E))
  pub registered_engine_schema : Dict Str (Outcome Json)
  pub manager : Option E
  pub initialized : Bool
  pub engine_name : Str

module _ {E : Type 0} where
  abbrev pub register_engine :
      Str → Outcome (Option E) → Outcome Json → OutputEngineStore E → OutputEngineStore E
  register_engine name maker schema s = record s {
    registered_engines = insert name maker s.registered_engines;
    registered_engine_schema = insert name schema s.registered_engine_schema;
  }

  abbrev pub get_engine_manager : Act (OutputEngineStore E) E
  get_engine_manager s = elim s.manager [ none ↦ (raise vnv_exception, s) | some m ↦ (ok m, s) ]

  -- `manager.reset((*it->second)())`; std::abort for a null pointer.
  abbrev pub make_manager : Outcome (Option E) → Act (OutputEngineStore E) E
  make_manager (ok (some m)) s = (ok m, record s { manager = some m })
  make_manager (ok none) s = (raise fault, record s { manager = none })
  make_manager (raise fault) s = (raise fault, s)
  make_manager (raise vnv_exception) s = (raise vnv_exception, s)
  make_manager (raise standard) s = (raise vnv_exception, s)
  make_manager (raise e) s = (raise e, s)

  -- The text of a schema that is not there is called through a null pointer.
  abbrev pub schema_of : Str → Act (OutputEngineStore E) Json
  schema_of type s = elim (find type s.registered_engine_schema) [
    | none ↦ (raise fault, s)
    | some r ↦ (r, s)
  ]

-- What the validator, and the engine when it is set up, say of a configuration.
pub record Checks (E : Type 0) : Type 0 where
  pub validate : Json → Json → Outcome (Unit {0})
  pub set_up : E → Json → Str → Outcome E

module _ {E : Type 0} (checks : Checks E) where
  abbrev pub validated : Json → Json → Act (OutputEngineStore E) (Unit {0})
  validated schema config s = (checks.validate schema config, s)

  abbrev pub set_up_manager : E → Json → Str → Act (OutputEngineStore E) (Unit {0})
  set_up_manager m config type s = elim (checks.set_up m config type) [
    | ok m' ↦ (ok tt, record s { manager = some m'; initialized = true; engine_name = type })
    | raise e ↦ (raise e, s)
  ]

  abbrev pub configure_manager : E → Json → Json → Str → Act (OutputEngineStore E) (Unit {0})
  configure_manager m schema config type =
      if is_empty schema then pure tt else validated schema config >> set_up_manager m config type

  unfoldable pub set_engine_manager : Str → Json → Act (OutputEngineStore E) (Unit {0})
  set_engine_manager type config s = elim (find type s.registered_engines) [
    | none ↦ (raise vnv_exception, s)
    | some maker ↦
        (make_manager maker >>= λ m. schema_of type >>= λ schema.
        catch_standard (configure_manager m schema config type) (throw vnv_exception))
          s
  ]

-- The two kinds of callbacks; the raw configuration is the result where there is none.
pub data Callback (V : Type 0) : Type 0 where
  no_callback : Callback V
  callback : (Json → Outcome V) → Callback V

pub record OptionsParserStore (V : Type 0) : Type 0 where
  pub factory : Dict Str (Json × Callback V)
  pub option_result : Dict Str V

module _ {V : Type 0} (validate : Json → Json → Outcome (Unit {0})) (raw : Json → V) where
  abbrev pub add_options : Str → Json → Callback V → OptionsParserStore V → OptionsParserStore V
  add_options name schema v s = record s { factory = assign name (schema, v) s.factory }

  abbrev pub get_result : Str → OptionsParserStore V → Option V
  get_result name s = find name s.option_result

  abbrev pub get_schema : Str → OptionsParserStore V → Outcome Json
  get_schema name s = elim (find name s.factory) [ none ↦ raise vnv_exception | some x ↦ ok x.0 ]

  abbrev pub called : Callback V → Json → Outcome V
  called no_callback info = ok (raw info)
  called (callback f) info = f info

  abbrev pub put_result : Str → Outcome V → Act (OptionsParserStore V) (Unit {0})
  put_result name (ok v) s = (ok tt, record s { option_result = assign name v s.option_result })
  put_result name (raise e) s = (raise e, s)

  -- With an engine that is there.
  unfoldable pub call_back : Str → Json → Act (OptionsParserStore V) (Unit {0})
  call_back name info s = elim (find name s.factory) [
    | none ↦ (ok tt, s)
    | some x ↦ ((λ s'. (validate x.0 info, s')) >> put_result name (called x.1 info)) s
  ]

  unfoldable pub parse_from :
      List (Str × (Json × Callback V)) → Json → Act (OptionsParserStore V) (Unit {0})
  parse_from [] info = pure tt
  parse_from ((name, x) ∷ l) info = call_back name info >> parse_from l info

  abbrev pub parse : Json → Act (OptionsParserStore V) (Unit {0})
  parse info s = parse_from s.factory info s
