-- ===== src/Injection.antt =====
-- Injection points and their store: injection/src/base/stores/InjectionPointStore.cpp and the
-- constructor and addTest of injection/src/base/InjectionPoint.cpp. A shared_ptr to an injection
-- point is its place in `points`, which holds every object that was made, and the null pointer is
-- `none`. The vector `active` is a list whose head is the back of the vector. A test's runConfig
-- and a point's are not kept: FunctionSigniture::run accepts any.
pub mod Signature
pub mod Active
pub mod Registry
pub mod Run
mod Examples
use vnv.Base.{
  ℕ, Bool, true, false, ◌||◌, ◌&&◌, not, List, [], ◌∷◌, ◌++◌, Option, none, some, Str, str, str_eq,
  if◌then◌else◌, Outcome, ok, raise, vnv_exception, fault, Act, pure, throw, ◌>>=◌, ◌>>◌, str_key,
  length, get_elem?, set, any, ◌==◌,
}
use vnv.Base.Dict.{Dict, find, assign, insert, contains}
use vnv.Engine.{InjectionPointType, Comm}
use vnv.Samplers.{Sampler}
use vnv.Testing.{Test, TestConfig, TestStore, VnVParameter, VnVParameterSet, Maker, key, get_test}
use vnv.Injection.Signature.{match}

-- `parameters` maps each signature of the point to the types of its parameters.
pub record InjectionPointSpec : Type 0 where
  pub package_name : Str
  pub name : Str
  pub spec : Dict Str (Dict Str Str)

pub record InjectionPointConfig : Type 0 where
  pub package_name : Str
  pub name : Str
  pub run_internal : Bool
  pub tests : List TestConfig

pub record InjectionPoint : Type 0 where
  pub package_name : Str
  pub name : Str
  pub comm : Option Comm
  pub tests : List Test
  pub type : InjectionPointType
  pub stage_id : Str
  pub parameters : VnVParameterSet
  pub skipped : Bool
  pub run_internal : Bool

pub record Store : Type 0 where
  pub injection_points : Dict Str InjectionPointConfig
  pub registered : Dict Str InjectionPointSpec
  pub active : List (Option ℕ)
  pub points : List InjectionPoint

-- What injection points share: their store and the store of tests.
pub record Points : Type 0 where
  pub store : Store
  pub test_store : TestStore

-- The constructor: a parameter takes its registered type, or void* where none is registered.
pub parameters_of : Dict Str Str → Dict Str (Str × ℕ) → VnVParameterSet
parameters_of registration [] = []
parameters_of registration ((name, (rtti, ptr)) ∷ args) =
    insert name (parameter (find name registration)) (parameters_of registration args)
  where
    parameter : Option Str → VnVParameter
    parameter none = record { ptr = ptr; type = str "void*" }
    parameter (some t) = record { ptr = ptr; type = t }

abbrev new_point : Str → Str → VnVParameterSet → InjectionPoint
new_point package_name name parameters = record {
  package_name = package_name;
  name = name;
  comm = none;
  tests = [];
  type = InjectionPointType.single;
  stage_id = [];
  parameters = parameters;
  skipped = false;
  run_internal = false;
}

-- The loop of addTest over the configured tests: one that has no factory is dropped.
abbrev pub add_made : Option Test → List Test → List Test
add_made none rest = rest
add_made (some t) rest = t ∷ rest

pub make_tests : Maker → VnVParameterSet → List TestConfig → Act TestStore (List Test)
make_tests make parameters [] = pure []
make_tests make parameters (c ∷ cs) = do
  made ← get_test make c parameters
  rest ← make_tests make parameters cs
  pure (add_made made rest)

abbrev pub is_alone : Dict Str (Dict Str Str) → Bool
is_alone spec = length spec == 1

module _ (squash : Str → Str) where
  -- The loop over the registered signatures: the only one, or the first that matches.
  pub find_spec : Bool → Str → Dict Str (Dict Str Str) → Option (Dict Str Str)
  find_spec alone signature [] = none
  find_spec alone signature ((registered, types) ∷ rest) =
      if alone || match squash signature registered
      then some types
      else find_spec alone signature rest

-- What the plug-ins and StringUtils supply to the making of a point.
pub record Supplied : Type 0 where
  pub squash : Str → Str
  pub make : Maker

module _ (supplied : Supplied) where
  abbrev pub added :
      Str → Str → VnVParameterSet → InjectionPointConfig → List Test → Act Points (Option ℕ)
  added package_name name parameters config tests s = (
    ok (some (length s.store.points)),
    record s {
      store = record (s.store) {
        points =
            s.store.points
            ++ record (new_point package_name name parameters) {
              tests = tests;
              run_internal = config.run_internal;
            }
              ∷ [];
      };
    },
  )

  abbrev pub on_test_store {ℓ} : {A : Type ℓ} → Act TestStore A → Act Points A
  on_test_store m s = let (o, t) = m s.test_store in (o, record s { test_store = t })

  unfoldable pub new_injection_point : Str → Str → Str → Dict Str (Str × ℕ) → Act Points (Option ℕ)
  unfolding make_tests find_spec parameters_of
  new_injection_point package_name name signature args s =
      elim (find (key package_name name) s.store.injection_points) [
        | none ↦ (ok none, s)
        | some config ↦ elim (find (key package_name name) s.store.registered) [
          | none ↦ (ok none, s)
          | some registration ↦
              elim (find_spec supplied.squash (is_alone registration.spec) signature
                registration.spec) [
                  | none ↦ (ok none, s)
                  | some types ↦
                      (on_test_store
                            (make_tests supplied.make (parameters_of types args) config.tests)
                          >>= added package_name name (parameters_of types args) config)
                        s
                ]
        ]
      ]

  abbrev pub opened : Option ℕ → Act Points (Option ℕ)
  opened p s = (ok p, record s { store = record (s.store) { active = p ∷ s.store.active } })

  -- Begin puts the new point on the stack, also where it is null.
  unfoldable pub get_new_injection_point :
      Str → Str → Str → InjectionPointType → Dict Str (Str × ℕ) → Act Points (Option ℕ)
  get_new_injection_point package_name name signature type args s =
      if contains (key package_name name) s.store.injection_points
      then elim type [
        | InjectionPointType.single ↦ new_injection_point package_name name signature args s
        | InjectionPointType.begin ↦
            (new_injection_point package_name name signature args >>= opened) s
        | _ ↦ (raise vnv_exception, s)
      ]
      else (ok none, s)

-- `ptr->...`: reading through the null pointer is undefined.
abbrev pub deref : Store → Option ℕ → Outcome InjectionPoint
deref store none = raise fault
deref store (some i) = elim (get_elem? store.points i) [ none ↦ raise fault | some p ↦ ok p ]

abbrev pub point_key : InjectionPoint → Str
point_key p = key p.package_name p.name

-- Iter: the innermost open point of that name.
pub find_active : Store → Str → List (Option ℕ) → Outcome (Option ℕ)
find_active store k [] = ok none
find_active store k (p ∷ ps) = elim (deref store p) [
  | raise e ↦ raise e
  | ok point ↦ if str_eq k (point_key point) then ok p else find_active store k ps
]

-- End: only the innermost open point may be closed.
abbrev close_last : Str → Option ℕ → List (Option ℕ) → Act Store (Option ℕ)
close_last k p rest store = elim (deref store p) [
  | raise e ↦ (raise e, store)
  | ok point ↦
      if str_eq k (point_key point)
      then (ok p, record store { active = rest })
      else (raise vnv_exception, store)
]

abbrev fetch_active : Str → InjectionPointType → List (Option ℕ) → Act Store (Option ℕ)
fetch_active k type [] store = (raise vnv_exception, store)
fetch_active k type (p ∷ rest) store = elim type [
  | InjectionPointType.end ↦ close_last k p rest store
  | InjectionPointType.iter ↦ (find_active store k (p ∷ rest), store)
  | _ ↦ (raise vnv_exception, store)
]

unfoldable pub fetch_from_queue : Str → Str → InjectionPointType → Act Store (Option ℕ)
unfolding find_active
fetch_from_queue package_name name type store =
    fetch_active (key package_name name) type store.active store

unfoldable pub get_existing_injection_point : Str → Str → InjectionPointType → Act Store (Option ℕ)
get_existing_injection_point package_name name type store =
    if contains (key package_name name) store.injection_points
    then fetch_from_queue package_name name type store
    else (ok none, store)
