-- ===== src/Streams/Calls.antt =====
-- The calls on the engine as data, and a run of them.
use vnv.Base.{ℕ, Bool, List, [], ◌∷◌, Str, Act, pure, ◌>>◌}
use vnv.Base.Int.{ℤ}
use vnv.Json.{Json}
use vnv.Engine.{InjectionPointType, ActionStage}
use vnv.Streams.{Files, Communicator, Value, Meta, UnitResult, Manager}
use vnv.Streams.Callbacks

pub data Call : Type 0 where
  point_started :
      (c : Communicator) (top : ℕ) (package_name id : Str) (type : InjectionPointType)
      (stage_val : Str)
      → Call
  point_ended : (top : ℕ) (type : InjectionPointType) → Call
  stdout_read : (c : Communicator) (out : Str) (error : Bool) → Call
  test_started : (package_name test_name : Str) (internal : Bool) (uuid : ℤ) → Call
  test_finished : (result : Bool) → Call
  action_started :
      (c : Communicator) (top : ℕ) (package_name name : Str) (stage : ActionStage) → Call
  action_ended : (stage : ActionStage) → Call
  workflow_started : (c : Communicator) (top : ℕ) (package_name name : Str) (i : Json) → Call
  workflow_updated workflow_ended : (c : Communicator) (package_name name : Str) (i : Json) → Call
  unit_test_started : (c : Communicator) (top : ℕ) (package_name name : Str) → Call
  unit_test_finished : (results : List UnitResult) → Call
  options_started : (c : Communicator) (top : ℕ) (package_name : Str) → Call
  options_ended : Call
  initialization_started : (c : Communicator) (top : ℕ) (package_name : Str) → Call
  initialization_ended : Call
  logged :
      (c : Communicator) (top : ℕ) (package_name : Str) (stage : ℕ) (level message : Str) → Call
  value_put : (variable_name : Str) (value : Value) (m : Meta) → Call
  -- A value of a data type whose own Put puts one value.
  data_put : (variable_name : Str) (key : ℕ) (m : Meta) (inner : Str) (value : Value) → Call

module _ (good : Files) where
  unfoldable pub perform : Call → Act Manager (Unit {0})
  perform (point_started c top p i type stage) =
      Callbacks.injection_point_started_call_back good c top p i type stage
  perform (point_ended top type) = Callbacks.injection_point_ended_call_back good top type
  perform (stdout_read c out error) = Callbacks.write_stdout_info good c out error
  perform (test_started p name internal uuid) =
      Callbacks.test_started_call_back good p name internal uuid
  perform (test_finished result) = Callbacks.test_finished_call_back good result
  perform (action_started c top p name stage) =
      Callbacks.action_started_call_back good c top p name stage
  perform (action_ended stage) = Callbacks.action_ended_call_back good stage
  perform (workflow_started c top p name i) =
      Callbacks.workflow_started_callback good c top p name i
  perform (workflow_updated c p name i) = Callbacks.workflow_updated_callback good c p name i
  perform (workflow_ended c p name i) = Callbacks.workflow_ended_callback good c p name i
  perform (unit_test_started c top p name) = Callbacks.unit_test_started_call_back good c top p name
  perform (unit_test_finished results) = Callbacks.unit_test_finished_call_back good results
  perform (options_started c top p) = Callbacks.package_options_started_call_back good c top p
  perform options_ended = Callbacks.package_options_ended_call_back good
  perform (initialization_started c top p) = Callbacks.initialization_started_call_back good c top p
  perform initialization_ended = Callbacks.initialization_ended_call_back good
  perform (logged c top p stage level message) =
      Callbacks.log_message good c top p stage level message
  perform (value_put name value m) = Callbacks.put good name value m
  perform (data_put name key m inner value) =
      Callbacks.put_data_type good name key m (Callbacks.put good inner value [])

  -- The calls in their order, up to one that throws.
  unfoldable pub run_calls : List Call → Act Manager (Unit {0})
  run_calls [] = pure tt
  run_calls (c ∷ calls) = perform c >> run_calls calls
