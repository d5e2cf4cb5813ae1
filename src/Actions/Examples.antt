-- ===== src/Actions/Examples.antt =====
-- Actions at work.
use vnv.Base.{
  ℕ, ◌≡◌, refl, str_key, Bool, true, false, List, [], ◌∷◌, str, Str, ok, raise, text, All, Exn,
}
use vnv.Base.Dict.{Dict, find, assign}
use vnv.Json.{null}
use vnv.Engine.{Comm}
use vnv.Actions.{
  Action, ActionBody, ActionFactory, implements_injection_point, register_action, registered_action,
  add_action, initialize, injection_point_start, start_stage, whole_stage, for_each,
}
use vnv.Actions.Nesting.{IsCalm, Program, run_program, IsReady, run_program_restores}

abbrev quiet : ActionBody
quiet = record { acts = λ trace a stage. ok tt; answers = λ trace e. ok tt }

quiet-IsCalm : IsCalm quiet
quiet-IsCalm = record { acted = λ t a stage. refl; answered = λ t e. refl }

abbrev comm : ℕ → Comm
comm id = record { unique_id = id; contains = λ p. true }

abbrev action : Bool → Action
action b = record {
  package_name = str "P";
  name = str "timer";
  implements_start = b;
  implements_iter = b;
  implements_end = b;
  comm_stack = [];
}

abbrev two_actions : List Action
two_actions = action true ∷ action false ∷ []

-- Two loops, one in the other.
abbrev nested : Program false
nested =
    Program.loop (comm 1)
      (Program.iter
        (Program.loop (comm 2) (Program.iter Program.finish) (Program.iter Program.finish)))
      Program.finish

two-IsReady : All (IsReady false) two_actions
two-IsReady = (
  record { start_end = refl; start_iter = refl },
  (record { start_end = refl; start_iter = refl }, tt),
)

run_program_restores_example :
    ((run_program quiet nested (two_actions, [])).0 ≡ ok tt)
    × ((run_program quiet nested (two_actions, [])).1.0 ≡ two_actions)
run_program_restores_example =
    run_program_restores quiet quiet-IsCalm nested two_actions [] two-IsReady

-- An engine that throws at the start of a stage keeps the communicator from being pushed.
start_not_pushed :
    (injection_point_start
      (record quiet { answers = λ trace e. raise Exn.standard })
      (comm 3)
      (action true ∷ [], [])).1.0
    ≡ action true ∷ []
unfolding start_stage for_each
start_not_pushed = refl

abbrev factories : Dict Str ActionFactory
factories =
    register_action (str "P") (str "timer")
      (record { schema = null; make = λ j. ok (action false) }) []

added :
    add_action (λ schema config. true) factories (str "P") (str "timer") null []
    ≡ (ok tt, action false ∷ [])
unfolding add_action register_action find assign
added = refl

not_registered :
    add_action (λ schema config. true) factories (str "P") (str "other") null [] ≡ (raise text, [])
unfolding add_action register_action find assign
not_registered = refl

is_registered : registered_action (str "P") (str "timer") factories ≡ true
unfolding registered_action register_action find assign
is_registered = refl

takes_part : implements_injection_point true (action false) ≡ action true
unfolding implements_injection_point
takes_part = refl

-- An action that throws keeps the communicator that the stage pushed.
initialize_leaks :
    (initialize
      (record quiet { acts = λ trace a stage. raise Exn.standard })
      (comm 3)
      (action true ∷ [], [])).1.0
    ≡ record (action true) { comm_stack = comm 3 ∷ [] } ∷ []
unfolding whole_stage for_each
initialize_leaks = refl
