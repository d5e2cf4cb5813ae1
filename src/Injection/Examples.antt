-- ===== src/Injection/Examples.antt =====
-- Injection points at work.
use vnv.Base.{
  Bool, if◌then◌else◌, none, ◌≡◌, refl, true, false, [], str_key, ◌∷◌, some, Str, str, str_eq, ok,
  raise, vnv_exception, fault, All, arith, inl, inr, Bool-cases,
}
use vnv.Base.Dict.{find}
use vnv.Engine.{InjectionPointType, Comm, TestStatus, Event, point_ended}
use vnv.Testing.Runs.{TestBody}
use vnv.Injection.{
  Supplied, InjectionPoint, InjectionPointConfig, InjectionPointSpec, Store, Points, new_point,
  get_new_injection_point, get_existing_injection_point,
}
use vnv.Injection.Signature.{match, match_loose}
use vnv.Injection.Registry.{
  default_config, run_all, registered, registered_test, register_injection_point, find-run_all,
}
use vnv.Injection.Active.{
  AllRegistered, begin_pushes, unregistered_faults, end_closes, iter_fetches, IsLive,
}
use vnv.Injection.Run.{DataCallback, execute}
use vnv.Injection.Run.Tame.{IsTame, IsCaught, execute-IsCaught}

abbrev squash : Str → Str
squash s = s

abbrev supplied : Supplied
supplied = record { squash = squash; make = λ c. ok tt }

-- The last of the characters of "[with" is the `t` of `int` and of `short`.
match_loose_sample : match squash (str "f [with T = int]") (str "f [with T = short]") ≡ true
match_loose_sample =
    match_loose squash (str "f [with T = int]") (str "f [with T = short]") (str "f [with T = in")
      (str "f [with T = shor") b't' (str "]") refl refl refl (refl, tt)

abbrev spec : InjectionPointSpec
spec = record {
  package_name = str "P";
  name = str "loop";
  spec = (str "__default__", (str "x", str "int") ∷ []) ∷ [];
}

abbrev config : InjectionPointConfig
config = record { package_name = str "P"; name = str "loop"; run_internal = true; tests = [] }

abbrev world : Comm
world = record { unique_id = 7; contains = λ p. true }

abbrev point : InjectionPoint
point = record (new_point (str "P") (str "loop") []) { comm = some world }

-- One point that is configured and registered, and open.
abbrev store : Store
store = record {
  injection_points = (str "P:loop", config) ∷ [];
  registered = (str "P:loop", spec) ∷ [];
  active = some 0 ∷ [];
  points = point ∷ [];
}

abbrev points : Points
points = record {
  store = store;
  test_store = record { test_factory = []; registered_tests = []; uid = 0 };
}

abbrev unregistered : Points
unregistered = record points { store = record store { registered = [] } }

find-run_all_sample :
    find (str "P:loop") (run_all [] (record store { injection_points = [] })).injection_points
    ≡ some (default_config spec [])
unfolding find
find-run_all_sample = find-run_all [] (record store { injection_points = [] }) (str "P:loop")

all_registered : AllRegistered store
unfolding find
all_registered = record {
  spec_of = λ k c e. elim (Bool-cases (str_eq k (str "P:loop"))) [
    | inl same ↦ (spec, rw same refl, refl)
    | inr other ↦ ground arith
  ];
}

begin_pushes_example :
    (p : InjectionPoint) × (s' : Points) × (get_new_injection_point supplied
        (str "P")
        (str "loop")
        (str "f()")
        InjectionPointType.begin
        ((str "x", (str "i", 4)) ∷ [])
        points
      ≡ (ok (some 1), s'))
    × (s'.store ≡ record store { points = point ∷ p ∷ []; active = some 1 ∷ some 0 ∷ [] })
    × (p.package_name ≡ str "P")
    × (p.name ≡ str "loop")
    × (p.skipped ≡ false)
    × (p.comm ≡ none)
unfolding find
begin_pushes_example =
    begin_pushes supplied (str "P") (str "loop") (str "f()") ((str "x", (str "i", 4)) ∷ []) points
      (λ c. refl) all_registered refl

unregistered_faults_example :
    let s' =
      (get_new_injection_point supplied
        (str "P")
        (str "loop")
        (str "f()")
        InjectionPointType.begin
        []
        unregistered).1 in
    ((get_existing_injection_point (str "P") (str "loop") InjectionPointType.end s'.store).0
      ≡ raise fault)
    × ((get_existing_injection_point (str "P") (str "loop") InjectionPointType.iter s'.store).0
        ≡ raise fault)
unfolding find
unregistered_faults_example =
    unregistered_faults supplied (str "P") (str "loop") (str "f()") (str "P") (str "loop") []
      unregistered refl refl refl

end_closes_sample :
    get_existing_injection_point (str "P") (str "loop") InjectionPointType.end store
    ≡ (ok (some 0), record store { active = [] })
unfolding find
end_closes_sample = end_closes store 0 [] point (str "P") (str "loop") refl refl refl

one-IsLive : All (IsLive store) store.active
one-IsLive = ((0, point, refl, refl), tt)

iter_fetches_example :
    get_existing_injection_point (str "P") (str "loop") InjectionPointType.iter store
    ≡ (ok (some 0), store)
unfolding find
iter_fetches_example = iter_fetches store (str "P") (str "loop") refl one-IsLive

-- The engine cannot write the end of a point.
abbrev is_ended : Event → Bool
is_ended (point_ended name type stage_id) = true
is_ended _ = false

abbrev passes : TestBody
passes = record {
  tests = λ trace t comm type stage_id. ok TestStatus.success;
  answers = λ trace e. if is_ended e then raise vnv_exception else ok tt;
}

passes-IsTame : IsTame passes
passes-IsTame = record {
  tests = λ trace t comm type stage_id. (ground arith, ground arith);
  answers = λ trace e. elim (Bool-cases (is_ended e)) [
    | inl ended ↦ (ground arith, ground arith)
    | inr other ↦ (ground arith, ground arith)
  ];
}

-- A callback that throws what the engine takes.
abbrev callback : DataCallback
callback comm parameters type stage_id trace = raise vnv_exception

execute-IsCaught_example :
    IsCaught (execute passes (str "main") 3 store 0 point world callback []).0
execute-IsCaught_example =
    execute-IsCaught passes passes-IsTame (str "main") 3 store 0 point world callback []
      (λ comm p trace. (ground arith, ground arith)) ((0, point, refl, refl, (world, refl)), tt)

is_configured : registered (str "P") (str "loop") store ≡ true
unfolding registered find
is_configured = refl

has_no_test : registered_test (str "P") (str "norm") store ≡ false
unfolding registered_test
has_no_test = refl

-- A second registration changes nothing.
registered_once : register_injection_point (str "P") (str "loop") [] store ≡ store
unfolding register_injection_point find
registered_once = refl
