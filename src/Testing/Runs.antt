-- ===== src/Testing/Runs.antt =====
-- Running a test: ITest::_runTest of injection/src/interfaces/ITest.cpp. What the test itself does
-- is a parameter: it may look at everything that the engine was told, and it may throw. What a test
-- writes to the engine is not modelled.
use vnv.Base.{Bool, true, false, List, [], ◌∷◌, Str, Outcome, Act, pure, ◌>>=◌, ◌>>◌, catch_vnv}
use vnv.Base.Int.{pos}
use vnv.Engine.{
  InjectionPointType, TestStatus, Comm, Event, test_started, test_finished, Trace, success, failure,
}
use vnv.Testing.{Test}

-- What a test does, and how the engine answers the callbacks about points and tests: it may throw.
pub record TestBody : Type 0 where
  pub tests : Trace → Test → Comm → InjectionPointType → Str → Outcome TestStatus
  pub answers : Trace → Event → Outcome (Unit {0})

abbrev pub emit : TestBody → Event → Act Trace (Unit {0})
emit body e trace = (body.answers trace e, e ∷ trace)

abbrev pub is_success : TestStatus → Bool
is_success success = true
is_success _ = false

module _ (body : TestBody) (comm : Comm) (type : InjectionPointType) (stage_id : Str) where
  unfoldable pub run_test : Test → Act Trace TestStatus
  run_test t = do
    emit body (test_started t.config.package_name t.config.test_name false (pos t.uuid))
    s ← catch_vnv (λ trace. (body.tests trace t comm type stage_id, trace)) (pure failure)
    emit body (test_finished (is_success s))
    pure s

  -- The loop over the tests of an injection point.
  unfoldable pub run_tests : List Test → Act Trace (Unit {0})
  run_tests [] = pure tt
  run_tests (t ∷ ts) = run_test t >>= λ s. run_tests ts
