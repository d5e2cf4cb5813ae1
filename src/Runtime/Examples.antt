-- ===== src/Runtime/Examples.antt =====
-- A program at its injection points.
use vnv.Base.{
  refl, true, false, [], ◌∷◌, none, some, Str, str, str_key, str_eq, ok, raise, vnv_exception,
  standard, inl, inr, Bool-cases, arith,
}
use vnv.Base.Dict.{find}
use vnv.Base.Int.{pos}
use vnv.Engine.{Comm}
use vnv.Injection.{InjectionPointConfig, InjectionPointSpec, Store}
use vnv.Injection.Run.{DataCallback}
use vnv.Samplers.{SamplerJson, number, skip, new_skip_runner}
use vnv.Samplers.Safety.{new_skip-IsSafe}
use vnv.Actions.{Action}
use vnv.Runtime.{Plugins, RunTime, Site}
use vnv.Runtime.Steps.{IsSound}
use vnv.Runtime.Nesting.{Program, run_program, Restores, IsTameProgram, run_program-Restores}

-- Tests that throw, as does the engine when it is told of them, and actions that do nothing.
abbrev plugins : Plugins
plugins = record {
  supplied = record { squash = λ s. s; make = λ c. ok tt };
  test_body = record {
    tests = λ trace t comm type stage_id. raise standard;
    answers = λ trace e. raise standard;
  };
  action_body = record { acts = λ trace a stage. ok tt; answers = λ trace e. ok tt };
  rand = λ n. n;
}

abbrev config : InjectionPointConfig
config = record { package_name = str "P"; name = str "loop"; run_internal = true; tests = [] }

abbrev spec : InjectionPointSpec
spec = record { package_name = str "P"; name = str "loop"; spec = (str "__default__", []) ∷ [] }

abbrev store : Store
store = record {
  injection_points = (str "P:loop", config) ∷ [];
  registered = (str "P:loop", spec) ∷ [];
  active = [];
  points = [];
}

abbrev every_second : SamplerJson
every_second = record { skip = some (number (pos 2)); processor = none; percentage = none }

abbrev timer : Action
timer = record {
  package_name = str "P";
  name = str "timer";
  implements_start = true;
  implements_iter = true;
  implements_end = true;
  comm_stack = [];
}

abbrev start : RunTime
start = record {
  run_tests = true;
  machine = record {
    points = record {
      store = store;
      test_store = record { test_factory = []; registered_tests = []; uid = 0 };
    };
    samplers = record {
      samplers = (str "P:loop", skip every_second new_skip_runner) ∷ [];
      sampler_factory = [];
    };
    trace = [];
    draws = 0;
  };
  actions = timer ∷ [];
}

start-IsSound : IsSound start
unfolding find
start-IsSound = record {
  on_ = refl;
  registered = record {
    spec_of = λ k c e. elim (Bool-cases (str_eq k (str "P:loop"))) [
      | inl same ↦ (spec, rw same refl, refl)
      | inr other ↦ ground arith
    ];
  };
  safe = record {
    safe = λ k s e. elim (Bool-cases (str_eq k (str "P:loop"))) [
      | inl same ↦ ground (arith, new_skip-IsSafe every_second)
      | inr other ↦ ground arith
    ];
  };
  live = tt;
}

abbrev world : Comm
world = record { unique_id = 7; contains = λ p. true }

abbrev site : Str → Site
site name = record { package_name = str "P"; id = name; function = str "main"; line = 3 }

abbrev throws : DataCallback
throws comm parameters type stage_id trace = raise vnv_exception

-- A configured loop, and in it one that is not configured and has an iteration of the outer one.
abbrev nested : Program false
nested =
    Program.loop world (site (str "loop")) (str "f()") [] throws (str "main") 9 throws
      (Program.loop world (site (str "other")) (str "f()") [] throws (str "main") 8 throws
        (Program.iter (site (str "loop")) (str "1") throws Program.finish) Program.finish)
      Program.finish

run_program-Restores_example : Restores (run_program plugins nested) start
unfolding IsTameProgram
run_program-Restores_example =
    run_program-Restores plugins
      record {
        tests = λ trace t comm type stage_id. (ground arith, ground arith);
        answers = λ trace e. (ground arith, ground arith);
      }
      record { acted = λ t a stage. refl; answered = λ t e. refl } (λ c. refl) nested start
      (
        λ comm q trace. (ground arith, ground arith),
        λ comm q trace. (ground arith, ground arith),
        (
          λ comm q trace. (ground arith, ground arith),
          λ comm q trace. (ground arith, ground arith),
          (λ comm q trace. (ground arith, ground arith), tt),
          tt,
        ),
        tt,
      )
      start-IsSound (record { start_end = refl; start_iter = refl }, tt)
