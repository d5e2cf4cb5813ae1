-- ===== src/Startup.antt =====
-- How the runtime starts and ends: the registration of packages and plug-ins, the clean up actions,
-- the choice of the configuration, and configure of injection/src/base/Runtime.cpp. What a
-- package's registration registers in its turn, and what the dynamic linker finds, are given.
pub mod Packages
pub mod Outcomes
pub mod Points
mod Examples
use vnv.Base.{
  ℕ, zero, suc, ◌+◌, Bool, true, false, ◌||◌, List, [], ◌∷◌, Option, none, some, Str, str, str_eq,
  if◌then◌else◌, any, Outcome, ok, raise, vnv_exception, fault, nat_key, str_key, Act, pure, throw,
  ◌>>=◌, ◌>>◌,
}
use vnv.Base.Dict.{Dict, assign}
use vnv.Json.{Json, boolean, object, field, done}

abbrev pub has_name : Str → List Str → Bool
has_name p l = any (str_eq p) l

-- `plugins`, and the registration callbacks that have been called, the newest first.
pub record Registry : Type 0 where
  pub plugins : List Str
  pub called : List Str

-- A loop of calls, each of which may still be running.
abbrev pub register_each :
    (Str → Registry → Option Registry) → List Str → Registry → Option Registry
register_each call [] s = some s
register_each call (p ∷ ps) s = elim (call p s) [ none ↦ none | some s' ↦ register_each call ps s' ]

-- What the linker finds at a path: no library, or a library, in which there may be the
-- registration of a package.
pub data Library : Type 0 where
  missing : Library
  broken : Library
  library : (registrations : List Str) → Library

-- `registers p` are the packages that the registration callback of `p` registers, in order.
module _ (registers : Str → List Str) where
  pub run_time_package_registration : ℕ → Str → Registry → Option Registry
  run_time_package_registration zero p s = none
  run_time_package_registration (suc fuel) p s = elim (has_name p s.plugins) [
    | true ↦ some s
    | false ↦
        register_each (run_time_package_registration fuel) (registers p)
          record { plugins = p ∷ s.plugins; called = p ∷ s.called }
  ]

  module _ (linked : Str → Library) where
    -- The path is looked up among the names of the packages. `some (ok b)` is what is returned.
    pub load_plugin : ℕ → Str → Str → Registry → Option (Outcome Bool × Registry)
    unfolding run_time_package_registration
    load_plugin fuel library_path package_name s =
        if has_name library_path s.plugins then some (ok true, s) else elim (linked library_path) [
          | missing ↦ some (ok false, s)
          | broken ↦ some (raise vnv_exception, s)
          | library names ↦
              if has_name package_name names
              then elim (run_time_package_registration fuel package_name s) [
                | none ↦ none
                | some s' ↦ some (ok true, s')
              ]
              else some (ok true, s)
        ]

    -- The loop over the plug-ins of the input file, by package and path: an exception ends it.
    pub load_plugins : ℕ → List (Str × Str) → Registry → Option (Outcome (Unit {0}) × Registry)
    unfolding load_plugin
    load_plugins fuel [] s = some (ok tt, s)
    load_plugins fuel ((package_name, path) ∷ plugins) s =
        elim (load_plugin fuel path package_name s) [
          | none ↦ none
          | some (raise e, s') ↦ some (raise e, s')
          | some (ok b, s') ↦ load_plugins fuel plugins s'
        ]

    -- Those of ~/.vnv, where every exception is taken.
    pub make_library_registration_callbacks :
        ℕ → (input home : List (Str × Str)) → Registry → Option (Outcome (Unit {0}) × Registry)
    unfolding load_plugins
    make_library_registration_callbacks fuel input home s = elim (load_plugins fuel input s) [
      | none ↦ none
      | some (raise e, s') ↦ some (raise e, s')
      | some (ok _, s') ↦ elim (load_plugins fuel home s') [
        | none ↦ none
        | some (o, s'') ↦ some (ok tt, s'')
      ]
    ]

-- The clean up actions, by the number that each was registered under.
pub record CleanUp {ℓ} (A : Type ℓ) : Type ℓ where
  pub cleanup_action_counter : ℕ
  pub cleanup_actions : Dict ℕ A

module _ {ℓ} {A : Type ℓ} where
  pub register_clean_up_action : A → CleanUp A → ℕ × CleanUp A
  register_clean_up_action action s = (
    s.cleanup_action_counter,
    record {
      cleanup_action_counter = s.cleanup_action_counter + 1;
      cleanup_actions = assign s.cleanup_action_counter action s.cleanup_actions;
    },
  )

  abbrev pub values : Dict ℕ A → List A
  values [] = []
  values ((k, a) ∷ m) = a ∷ values m

  -- The order in which Finalize calls them.
  abbrev pub in_order : CleanUp A → List A
  in_order s = values s.cleanup_actions

-- The names that stand for no input file, for one that turns the tests on, and for all points.
abbrev pub input_file_off : Str
input_file_off = str "__vnvoff__"

abbrev pub input_file_on : Str
input_file_on = str "__vnvon__"

abbrev pub input_file_all : Str
input_file_all = str "__vnvall__"

pub get_override_file_name : Option Str → Str
get_override_file_name none = []
get_override_file_name (some fname) =
    if str_eq fname (str "__off__")
    then input_file_off
    else if str_eq fname (str "__on__")
    then input_file_on
    else if str_eq fname (str "__all__")
    then input_file_all
    else fname

abbrev pub run_tests_json : Bool → Json
run_tests_json b = object (field (str "runTests") (boolean b) done)

abbrev pub run_all_json : Json
run_all_json = object (
    field (str "injectionPoints") (object (field (str "runAll") (boolean true) done))
      (field (str "runTests") (boolean true) done))

-- InitFromFile: the configuration that goes on to InitFromJson. `load` is what a file holds, or none
-- where it cannot be opened.
pub config_from : (load : Str → Option (Outcome Json)) → Str → Outcome Json
config_from load [] = ok (run_tests_json false)
config_from load (c ∷ file) =
    if str_eq (c ∷ file) input_file_off
    then ok (run_tests_json false)
    else if str_eq (c ∷ file) input_file_on
    then ok (run_tests_json true)
    else if str_eq (c ∷ file) input_file_all
    then ok run_all_json
    else elim (load (c ∷ file)) [ none ↦ ok (run_tests_json false) | some o ↦ o ]

-- The answers of configure, as the int that it returns; the caller sees a bool.
abbrev pub exits : ℕ → Bool
exits zero = false
exits (suc n) = true

-- What configure has to do with: the information that was parsed, and the parts that it calls.
pub record Parts (S : Type 0) : Type 0 where
  pub load_run_info : Act S (Unit {0})
  pub run_jobs : Act S (Unit {0})
  pub run_unit_tests : Act S (Unit {0})
  pub initialize_actions : Act S (Unit {0})

pub record Wishes : Type 0 where
  pub run_tests : Bool
  pub on_cmdline : Bool
  pub vnv_on : Bool
  pub run_unit_tests : Bool
  pub exit_after_tests : Bool
  pub error : Bool

-- A state of the parts, and the flag runTests of the runtime.
abbrev pub Flagged : Type 0 → Type 0
Flagged S = Bool × S

abbrev pub part : {S A : Type 0} → Act S A → Act (Flagged S) A
part m (b, s) = let (o, s') = m s in (o, (b, s'))

module _ {S : Type 0} (parts : Parts S) where
  abbrev pub unit_tests : Wishes → Act (Flagged S) ℕ
  unit_tests w =
      if w.run_unit_tests
      then (part parts.run_unit_tests >>= λ _.
          if w.exit_after_tests then pure 1 else (part parts.initialize_actions >>= λ _. pure 0))
      else part parts.initialize_actions >>= λ _. pure 0

  abbrev pub body : Wishes → Act (Flagged S) ℕ
  body w (b, s) =
      if b
      then (part parts.load_run_info >>= λ _. part parts.run_jobs >>= λ _. unit_tests w) (b, s)
      else (ok (if w.error then 2 else 0), (b, s))

  -- Whatever is thrown is taken, and 2 is returned.
  abbrev pub or_two : Outcome ℕ × Flagged S → Outcome Bool × Flagged S
  or_two (ok n, s) = (ok (exits n), s)
  or_two (raise fault, s) = (raise fault, s)
  or_two (raise e, s) = (ok true, s)

  pub configure : Wishes → Act (Flagged S) Bool
  configure w (b, s) = or_two (body w (w.run_tests || (w.on_cmdline || w.vnv_on), s))
