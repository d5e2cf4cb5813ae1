-- ===== src/Injection/Registry.antt =====
-- The store's tables: registration, configuration, and the queries on them, from
-- injection/src/base/stores/InjectionPointStore.cpp.
use vnv.Base.{
  Bool, true, false, ◌&&◌, List, [], ◌∷◌, none, some, Str, str_eq, if◌then◌else◌, str_key, any, ◌≡◌,
  arith,
}
use vnv.Base.Dict.{Dict, find, insert, contains, find-insert}
use vnv.Json.{Json}
use vnv.Samplers.Store.{SamplerStore, SamplerConfig, create_sampler}
use vnv.Testing.{TestConfig, key}
use vnv.Injection.{InjectionPointSpec, InjectionPointConfig, Store}

-- The first registration of a point stays.
unfoldable pub register_injection_point : Str → Str → Dict Str (Dict Str Str) → Store → Store
register_injection_point package_name id spec store = record store {
  registered =
      insert (key package_name id) (record { package_name = package_name; name = id; spec = spec })
        store.registered;
}

unfoldable pub registered : Str → Str → Store → Bool
registered package_name name store = contains (key package_name name) store.injection_points

unfoldable pub registered_test : Str → Str → Store → Bool
registered_test package_name name store =
    any
      (λ (k, config).
        any (λ t. str_eq t.package_name package_name && str_eq t.test_name name) config.tests)
      store.injection_points

abbrev is_empty : Str → Bool
is_empty [] = true
is_empty (c ∷ s) = false

-- A sampler that cannot be created is reported, and the point is configured all the same.
unfoldable pub add_injection_point :
    (Json → Json → Bool)
    → Str
    → Str
    → Bool
    → List TestConfig
    → SamplerConfig
    → Store × SamplerStore
    → Store × SamplerStore
add_injection_point validates package_name name run_internal tests sinfo (store, samplers) = (
  record store {
    injection_points =
        insert (key package_name name)
          (record {
            package_name = package_name;
            name = name;
            run_internal = run_internal;
            tests = tests;
          })
          store.injection_points;
  },
  if is_empty sinfo.name then samplers else (create_sampler validates sinfo samplers).1,
)

abbrev pub default_config : InjectionPointSpec → List TestConfig → InjectionPointConfig
default_config spec tests = record {
  package_name = spec.package_name;
  name = spec.name;
  run_internal = true;
  tests = tests;
}

-- The loop of runAll over the registered points.
configure_all :
    List TestConfig
    → Dict Str InjectionPointSpec
    → Dict Str InjectionPointConfig
    → Dict Str InjectionPointConfig
configure_all tests [] points = points
configure_all tests ((k, spec) ∷ rest) points =
    configure_all tests rest (insert k (default_config spec tests) points)

unfoldable pub run_all : List TestConfig → Store → Store
unfolding configure_all
run_all tests store = record store {
  injection_points = configure_all tests store.registered store.injection_points;
}

find-configure_all :
    (tests : List TestConfig) (specs : Dict Str InjectionPointSpec)
    (points : Dict Str InjectionPointConfig) (a : Str)
    → find a (configure_all tests specs points) ≡ elim (find a points) [
      | some w ↦ some w
      | none ↦ elim (find a specs) [ none ↦ none | some spec ↦ some (default_config spec tests) ]
    ]
unfolding configure_all find
find-configure_all tests [] points a = ground arith
find-configure_all tests ((k, spec) ∷ rest) points a = ground (
  arith,
  find-configure_all tests rest (insert k (default_config spec tests) points) a,
  find-insert a k (default_config spec tests) points,
)

-- After runAll a point is configured exactly if it was configured or is registered: a configured
-- one as it was, and any other with the given tests and its internal test on.
pub find-run_all :
    (tests : List TestConfig) (store : Store) (a : Str)
    → find a (run_all tests store).injection_points ≡ elim (find a store.injection_points) [
      | some w ↦ some w
      | none ↦ elim (find a store.registered) [
        | none ↦ none
        | some spec ↦ some (default_config spec tests)
      ]
    ]
unfolding run_all
find-run_all tests store a = find-configure_all tests store.registered store.injection_points a
