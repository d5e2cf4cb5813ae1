-- ===== src/Engine.antt =====
-- What the core says to the output engine, and the enumerations of an injection point:
-- injection/include/base/TestConfig.h, injection/src/interfaces/IOutputEngine.cpp and the callbacks
-- of OutputEngineManager in injection/include/interfaces/IOutputEngine.h. An engine is seen as
-- the list of the callbacks made to it, the newest first; what it answers, which may be an
-- exception, is a parameter of the code that calls it.
pub mod Names
mod Examples
use vnv.Base.Int.{ℤ}
use vnv.Base.{ℕ, Bool, List, Str, Outcome}

pub data InjectionPointType : Type 0 where
  single begin end iter child_single child_begin child_end child_iter : InjectionPointType

pub data TestStatus : Type 0 where
  success failure not_run : TestStatus

-- A communicator, as far as the core reads it.
pub record Comm : Type 0 where
  pub unique_id : ℕ
  pub contains : ℤ → Bool

pub data ActionStage : Type 0 where
  init start iter end final : ActionStage

pub data Event : Type 0 where
  point_started :
      (comm : ℕ) (package_name name : Str) (type : InjectionPointType) (stage_id function : Str)
      (line : ℕ)
      → Event
  point_ended : (name : Str) (type : InjectionPointType) (stage_id : Str) → Event
  test_started : (package_name name : Str) (internal : Bool) (uuid : ℤ) → Event
  test_finished : (result : Bool) → Event
  action_started : (comm : ℕ) (package_name name : Str) (stage : ActionStage) → Event
  action_ended : (stage : ActionStage) → Event

abbrev pub Trace : Type 0
Trace = List Event
