-- ===== src/Stores/Engines.antt =====
-- When an engine is initialised.
use vnv.Base.{true, some, ◌≡◌, refl, ok, Str, str_key}
use vnv.Base.Dict.{find}
use vnv.Json.{Json}
use vnv.Stores.{OutputEngineStore, Checks, is_empty, set_engine_manager}

module _ {E : Type 0} (checks : Checks E) where
  -- An engine whose schema is empty is made, but never set up: it stays uninitialised, and no error
  -- is reported.
  pub empty_schema_uninitialized :
      (type : Str) (config schema : Json) (m : E) (s : OutputEngineStore E)
      → find type s.registered_engines ≡ some (ok (some m))
      → find type s.registered_engine_schema ≡ some (ok schema)
      → is_empty schema ≡ true
      → set_engine_manager checks type config s ≡ (ok tt, record s { manager = some m })
  unfolding set_engine_manager find
  empty_schema_uninitialized type config schema m s e f h = rw (set_engine_manager, e, f, h) refl
