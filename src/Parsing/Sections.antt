-- ===== src/Parsing/Sections.antt =====
-- The other sections of the input file, and the command line.
use vnv.Base.{
  ℕ, Bool, true, false, not, List, [], ◌∷◌, ◌++◌, Option, none, some, Outcome, ok, raise, fault,
  vnv_exception, standard, Str, str, str_eq, str_key, if◌then◌else◌, bind, ◌==◌,
}
use vnv.Base.Dict.{Dict, assign, insert}
use vnv.Json.{Json, string, object, find_member, put, get_string, get_bool, empty_object}
use vnv.Logging.{LogWriteType, stdout, stderr, file, off}
use vnv.Parsing.{items}

abbrev pub member_bool : Str → Bool → Json → Outcome Bool
member_bool key default j = elim (find_member key j) [ none ↦ ok default | some v ↦ get_bool v ]

-- `j.value(key, default)`, which throws where `j` is no object.
abbrev pub bool_value : Str → Bool → Json → Outcome Bool
bool_value key default (object fs) = member_bool key default (object fs)
bool_value key default j = raise standard

abbrev pub string_value : Str → Str → Json → Outcome Str
string_value key default (object fs) = elim (find_member key (object fs)) [
  | none ↦ ok default
  | some v ↦ get_string v
]
string_value key default j = raise standard

pub record LoggerInfo : Type 0 where
  pub on : Bool
  pub engine : Bool
  pub type : LogWriteType
  pub filename : Str
  pub logs : Dict Str Bool
  pub black_list : Dict Str (Unit {0})

abbrev pub default_logger : LoggerInfo
default_logger = record {
  on = false;
  engine = true;
  type = off;
  filename = [];
  logs = [];
  black_list = [];
}

abbrev pub write_type_of : Str → LogWriteType
write_type_of t =
    if str_eq t (str "stdout")
    then stdout
    else if str_eq t (str "stderr")
    then stderr
    else if str_eq t (str "file")
    then file
    else off

abbrev pub add_logs : List (Str × Json) → Dict Str Bool → Outcome (Dict Str Bool)
add_logs [] logs = ok logs
add_logs ((k, v) ∷ l) logs = bind (get_bool v) λ b. add_logs l (insert k b logs)

abbrev pub add_black_list : List (Str × Json) → Dict Str (Unit {0}) → Outcome (Dict Str (Unit {0}))
add_black_list [] names = ok names
add_black_list ((k, v) ∷ l) names = bind (get_string v) λ s. add_black_list l (insert s tt names)

abbrev pub section : Str → Json → List (Str × Json)
section key j = elim (find_member key j) [ none ↦ [] | some v ↦ items v ]

unfoldable pub get_logger_info : Json → Outcome LoggerInfo
get_logger_info logging = bind (bool_value (str "on") true logging) λ on.
    if not on
    then ok (record default_logger { on = false })
    else bind (bool_value (str "engine") true logging) λ engine.
      bind (string_value (str "filename") (str "vnv-logs.out") logging) λ filename.
        bind (string_value (str "type") (str "stdout") logging) λ t.
          bind (add_logs (section (str "logs") logging) []) λ logs.
            bind (add_black_list (section (str "blackList") logging) []) λ names. ok (record {
              on = true;
              engine = engine;
              type = write_type_of t;
              filename = filename;
              logs = logs;
              black_list = names;
            })

pub record EngineInfo : Type 0 where
  pub engine_type : Str
  pub engine_config : Json

abbrev pub get_engine_info : Json → Outcome EngineInfo
get_engine_info engine = elim (items engine) [
  | (kv ∷ []) ↦ ok (record { engine_type = kv.0; engine_config = kv.1 })
  | l ↦ raise fault
]

pub record UnitTestInfo : Type 0 where
  pub run_unit_tests : Bool
  pub unit_test_config : Json
  pub exit_after_tests : Bool

abbrev pub config_of : Json → Json
config_of j = elim (find_member (str "config") j) [ none ↦ empty_object | some c ↦ c ]

-- The configuration is read only where it is said whether to run the tests.
abbrev pub run_and_config : Json → Outcome (Bool × Json)
run_and_config j = elim (find_member (str "runUnitTests") j) [
  | none ↦ ok (false, empty_object)
  | some v ↦ bind (get_bool v) λ b. ok (b, config_of j)
]

unfoldable pub get_unit_test_info : Json → Outcome UnitTestInfo
get_unit_test_info j = bind (run_and_config j) λ rc.
    bind (member_bool (str "exitAfter") false j) λ exit_after.
      ok (record { run_unit_tests = rc.0; unit_test_config = rc.1; exit_after_tests = exit_after })

pub record ActionConfig : Type 0 where
  pub package_name : Str
  pub name : Str
  pub config : Json

abbrev pub colon : ℕ
colon = 58

-- `substr(0, pos)` and `substr(pos + 1)` for the first colon. Without one, both are the whole key.
abbrev pub before_colon : Str → Str
before_colon [] = []
before_colon (c ∷ s) = if c == colon then [] else c ∷ before_colon s

abbrev pub behind_colon : Str → Option Str
behind_colon [] = none
behind_colon (c ∷ s) = if c == colon then some s else behind_colon s

abbrev pub name_of : Str → Str
name_of key = elim (behind_colon key) [ none ↦ key | some s ↦ s ]

abbrev pub actions_of : List (Str × Json) → List ActionConfig
actions_of [] = []
actions_of ((k, v) ∷ l) =
    record { package_name = before_colon k; name = name_of k; config = v } ∷ actions_of l

abbrev pub get_action_info : Json → List ActionConfig
get_action_info j = actions_of (items j)

pub record WorkflowInfo : Type 0 where
  pub run : Bool
  pub quit : Bool
  pub workflows : List (Str × Str × Json)

module _ (split : Str → List Str) where
  abbrev pub workflow_of : Json → List Str → WorkflowInfo → Outcome WorkflowInfo
  workflow_of v (p ∷ n ∷ []) info =
      ok (record info { workflows = info.workflows ++ (p, n, v) ∷ [] })
  workflow_of v l info = raise vnv_exception

  unfoldable pub add_workflows : List (Str × Json) → WorkflowInfo → Outcome WorkflowInfo
  add_workflows [] info = ok info
  add_workflows ((k, v) ∷ l) info =
      if str_eq k (str "run")
      then (bind (get_bool v) λ b. add_workflows l (record info { run = b }))
      else if str_eq k (str "quit")
      then (bind (get_bool v) λ b. add_workflows l (record info { quit = b }))
      else bind (workflow_of v (split k) info) λ info'. add_workflows l info'

  abbrev pub get_workflow_info : Json → Outcome WorkflowInfo
  get_workflow_info j = bind (bool_value (str "run") true j) λ run.
      bind (bool_value (str "quit") true j)
        λ quit. add_workflows (items j) (record { run = run; quit = quit; workflows = [] })

abbrev pub add_test_library : List (Str × Json) → Dict Str Str → Outcome (Dict Str Str)
add_test_library [] libs = ok libs
add_test_library ((k, v) ∷ l) libs = bind (get_string v) λ s. add_test_library l (insert k s libs)

-- The loop over argv. A library takes two more arguments.
unfoldable pub add_command_line_plugins : List Str → Dict Str Str → Outcome (Dict Str Str)
add_command_line_plugins [] plugins = ok plugins
add_command_line_plugins (s ∷ []) plugins =
    if str_eq s (str "--vnv-plugin") then raise vnv_exception else ok plugins
add_command_line_plugins (s ∷ a ∷ []) plugins =
    if str_eq s (str "--vnv-plugin")
    then raise vnv_exception
    else add_command_line_plugins (a ∷ []) plugins
add_command_line_plugins (s ∷ a ∷ b ∷ args) plugins =
    let skipped = add_command_line_plugins args (assign a b plugins) in
    let rest = add_command_line_plugins (a ∷ b ∷ args) plugins in
    if str_eq s (str "--vnv-plugin") then skipped else rest

abbrev pub behind_prefix : Str → Str → Option Str
behind_prefix [] s = some s
behind_prefix (c ∷ p) [] = none
behind_prefix (c ∷ p) (d ∷ s) = if c == d then behind_prefix p s else none

abbrev pub first_of : List Str → Str
first_of [] = []
first_of (a ∷ args) = a

unfoldable pub command_line_from : List Str → Json → Outcome Json
command_line_from [] main = ok main
command_line_from (s ∷ args) main = elim (behind_prefix (str "--vnv-") s) [
  | none ↦ command_line_from args main
  | some key ↦ bind (put key (string (first_of args)) main) λ main'. command_line_from args main'
]

abbrev pub command_line_parser : List Str → Outcome Json
command_line_parser args = command_line_from args empty_object
