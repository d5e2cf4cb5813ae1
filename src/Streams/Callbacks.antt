-- ===== src/Streams/Callbacks.antt =====
-- The calls that the core and the tests make on the engine: the callbacks, Put, Log and finalize of
-- StreamManager in injection/include/plugins/engines/streamtemplate.h. `top` is what the AllReduce of
-- the call hands over.
use vnv.Base.{
  ℕ, ◌+◌, Bool, true, false, List, [], ◌∷◌, Option, none, some, Str, if◌then◌else◌, ◌==◌, ok, Act,
  pure, ◌>>◌,
}
use vnv.Base.Int.{ℤ}
use vnv.Json.{Json}
use vnv.Engine.{InjectionPointType, single, begin, end, ActionStage}
use vnv.Streams.{
  Files, Communicator, Value, Meta, UnitResult, WorkflowStage, started, updated, finished, Node,
  shape, data_type_started, data_type_ended, log, final_time, file, injection_point_started,
  injection_point_iter_started, injection_point_ended, injection_point_iter_ended, stdout,
  test_started, test_finished, action_started, action_finished, workflow, unit_test_started,
  unit_test_finished, package_options_started, package_options_finished, initialization_started,
  initialization_ended, Manager, with_comm, write, write_at_root, set_comm, sync_id, close_streams,
}

abbrev pub started_node : InjectionPointType → Str → Str → ℕ → Str → Node
started_node begin name package_name comm stage_id =
    injection_point_started name package_name comm stage_id
started_node single name package_name comm stage_id =
    injection_point_started name package_name comm stage_id
started_node _ name package_name comm stage_id =
    injection_point_iter_started name package_name comm stage_id

abbrev pub ended_node : InjectionPointType → Node
ended_node end = injection_point_ended
ended_node single = injection_point_ended
ended_node _ = injection_point_iter_ended

-- A file that the code registers with the report, and the name it is copied to, if not empty.
pub record Registered : Type 0 where
  pub package_name : Str
  pub name : Str
  pub input_file : Bool
  pub reader : Str
  pub in_filename : Str
  pub out_filename : Str

-- The name under inputs/ or outputs/ of the report where the file is copied, and else its own.
abbrev pub file_node : (in_stub out_stub : Str) → Registered → Node
file_node in_stub out_stub f = elim f.out_filename [
  | [] ↦ file f.input_file f.package_name f.name f.reader f.in_filename false
  | c ∷ cs ↦
      file f.input_file f.package_name f.name f.reader
        (copied_to (if f.input_file then in_stub else out_stub) (c ∷ cs)) true
]
  where
    copied_to : Str → Str → Str
    copied_to [] name = name
    copied_to (a ∷ s) name = a ∷ copied_to s name

module _ (good : Files) where
  unfoldable pub injection_point_started_call_back :
      (c : Communicator) (top : ℕ) (package_name id : Str) (type : InjectionPointType)
      (stage_val : Str)
      → Act Manager (Unit {0})
  unfolding set_comm write_at_root
  injection_point_started_call_back c top package_name id type stage_val =
      set_comm good c (some top)
      >> write_at_root good (started_node type id package_name c.unique_id stage_val)

  unfoldable pub injection_point_ended_call_back :
      (top : ℕ) (type : InjectionPointType) → Act Manager (Unit {0})
  unfolding sync_id write_at_root
  injection_point_ended_call_back top type =
      sync_id good top >> write_at_root good (ended_node type)

  -- Every rank writes, on the stream of the communicator that it is given.
  unfoldable pub write_stdout_info : Communicator → Str → Bool → Act Manager (Unit {0})
  unfolding set_comm write
  write_stdout_info c out error = set_comm good c none >> write good (stdout c.unique_id out error)

  unfoldable pub test_started_call_back :
      (package_name test_name : Str) (internal : Bool) (uuid : ℤ) → Act Manager (Unit {0})
  unfolding write_at_root
  test_started_call_back package_name test_name internal uuid =
      write_at_root good (test_started test_name package_name internal uuid)

  unfoldable pub test_finished_call_back : Bool → Act Manager (Unit {0})
  unfolding write_at_root
  test_finished_call_back result = write_at_root good (test_finished result)

  unfoldable pub action_started_call_back :
      (c : Communicator) (top : ℕ) (package_name name : Str) (stage : ActionStage)
      → Act Manager (Unit {0})
  unfolding set_comm write_at_root
  action_started_call_back c top package_name name stage =
      set_comm good c (some top) >> write_at_root good (action_started name package_name stage)

  unfoldable pub action_ended_call_back : ActionStage → Act Manager (Unit {0})
  unfolding write_at_root
  action_ended_call_back stage = write_at_root good (action_finished stage)

  -- The rank is that on the communicator of the call; the line goes to the one that is set.
  unfoldable pub workflow_callback :
      WorkflowStage → Communicator → Str → Str → Json → Act Manager (Unit {0})
  unfolding write
  workflow_callback stage c package_name name i =
      if c.rank == 0 then write good (workflow stage name package_name i) else pure tt

  unfoldable pub workflow_started_callback :
      (c : Communicator) (top : ℕ) (package_name name : Str) (i : Json) → Act Manager (Unit {0})
  unfolding set_comm workflow_callback
  workflow_started_callback c top package_name name i =
      set_comm good c (some top) >> workflow_callback started c package_name name i

  unfoldable pub workflow_ended_callback : Communicator → Str → Str → Json → Act Manager (Unit {0})
  unfolding workflow_callback
  workflow_ended_callback = workflow_callback finished

  unfoldable pub workflow_updated_callback :
      Communicator → Str → Str → Json → Act Manager (Unit {0})
  unfolding workflow_callback
  workflow_updated_callback = workflow_callback updated

  unfoldable pub unit_test_started_call_back :
      (c : Communicator) (top : ℕ) (package_name unit_test_name : Str) → Act Manager (Unit {0})
  unfolding set_comm write_at_root
  unit_test_started_call_back c top package_name unit_test_name =
      set_comm good c (some top)
      >> write_at_root good (unit_test_started unit_test_name package_name)

  unfoldable pub unit_test_finished_call_back : List UnitResult → Act Manager (Unit {0})
  unfolding write_at_root
  unit_test_finished_call_back results = write_at_root good (unit_test_finished results)

  unfoldable pub package_options_started_call_back :
      (c : Communicator) (top : ℕ) (package_name : Str) → Act Manager (Unit {0})
  unfolding set_comm write_at_root
  package_options_started_call_back c top package_name =
      set_comm good c (some top) >> write_at_root good (package_options_started package_name)

  unfoldable pub package_options_ended_call_back : Act Manager (Unit {0})
  unfolding write_at_root
  package_options_ended_call_back = write_at_root good package_options_finished

  unfoldable pub initialization_started_call_back :
      (c : Communicator) (top : ℕ) (package_name : Str) → Act Manager (Unit {0})
  unfolding set_comm write_at_root
  initialization_started_call_back c top package_name =
      set_comm good c (some top) >> write_at_root good (initialization_started package_name)

  unfoldable pub initialization_ended_call_back : Act Manager (Unit {0})
  unfolding write_at_root
  initialization_ended_call_back = write_at_root good initialization_ended

  -- `log[JSD::name] = std::to_string(id++)`, before write counts the id on.
  abbrev pub write_log : ℕ → Str → ℕ → Str → Str → Act Manager (Unit {0})
  write_log comm package_name stage level message = with_comm good λ c s.
      if c.rank == 0
      then write good (log package_name stage level message s.id comm) (record s { id = s.id + 1 })
      else (ok tt, s)

  -- The communicator that was set before, if there was one, is set again.
  abbrev pub set_back : Option Communicator → Act Manager (Unit {0})
  set_back none = pure tt
  set_back (some c) = set_comm good c none

  unfoldable pub log_message :
      (c : Communicator) (top : ℕ) (package_name : Str) (stage : ℕ) (level message : Str)
      → Act Manager (Unit {0})
  unfolding set_comm write
  log_message c top package_name stage level message s =
      (set_comm good c (some top)
          >> write_log c.unique_id package_name stage level message
          >> set_back s.comm)
        s

  unfoldable pub put : (variable_name : Str) (value : Value) (m : Meta) → Act Manager (Unit {0})
  unfolding write_at_root
  put variable_name value m = write_at_root good (shape variable_name value m)

  -- `put_data` is what the data type's own Put does with the engine.
  unfoldable pub put_data_type :
      (variable_name : Str) (key : ℕ) (m : Meta) → Act Manager (Unit {0}) → Act Manager (Unit {0})
  unfolding write_at_root
  put_data_type variable_name key m put_data =
      write_at_root good (data_type_started variable_name key m)
      >> put_data
      >> write_at_root good data_type_ended

  -- The copy of the file is made by the operating system.
  unfoldable pub register_file :
      (in_stub out_stub : Str) (c : Communicator) (f : Registered) → Act Manager (Unit {0})
  unfolding set_comm write_at_root
  register_file in_stub out_stub c f =
      set_comm good c none >> write_at_root good (file_node in_stub out_stub f)

  -- Behind stream->initialize.
  unfoldable pub set_from_json : Communicator → Act Manager (Unit {0})
  unfolding set_comm
  set_from_json world = set_comm good world none

  abbrev pub close_all : ℕ → Act Manager (Unit {0})
  close_all time s =
      (ok tt, record s { writer = close_streams good time s.writer.streams s.writer })

  unfoldable pub finalize : Communicator → ℕ → Act Manager (Unit {0})
  unfolding set_comm write_at_root close_streams
  finalize world current_time =
      set_comm good world none
      >> write_at_root good (final_time current_time)
      >> close_all current_time
