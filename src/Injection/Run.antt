-- ===== src/Injection/Run.antt =====
-- Running an injection point: InjectionPointBase::runTestsInternal, InjectionPoint::runChild and
-- InjectionPoint::run of injection/src/base/InjectionPoint.cpp, and InjectionPointStore::getParents.
-- A point that runs has its communicator: reading through a null one is a fault, also where only a
-- sampler is asked.
pub mod Tame
use vnv.Base.{
  ℕ, ◌+◌, Bool, true, false, ◌||◌, not, List, [], ◌∷◌, ◌++◌, Option, none, some, Str, str,
  if◌then◌else◌, Outcome, ok, raise, vnv_exception, fault, Act, pure, throw, ◌>>=◌, ◌>>◌, catch_vnv,
  handle_vnv, str_key, ◌==◌, get_elem?, set,
}
use vnv.Base.Int.{negsuc}
use vnv.Base.Dict.{assign}
use vnv.Engine.{
  InjectionPointType, Comm, Event, point_started, point_ended, test_started, test_finished, Trace,
}
use vnv.Samplers.{Sampler, sample}
use vnv.Samplers.Store.{SamplerStore, get_sampler_for_injection_point}
use vnv.Testing.{VnVParameterSet, key}
use vnv.Testing.Runs.{TestBody, emit, run_tests}
use vnv.Injection.{InjectionPoint, Store, Points, deref}

-- The lambda of an injection point, which runs as its internal test.
abbrev pub DataCallback : Type 0
DataCallback = Comm → VnVParameterSet → InjectionPointType → Str → Trace → Outcome (Unit {0})

abbrev pub is_end : InjectionPointType → Bool
is_end InjectionPointType.end = true
is_end _ = false

abbrev pub is_begin : InjectionPointType → Bool
is_begin InjectionPointType.begin = true
is_begin _ = false

abbrev pub is_point : ℕ → Option ℕ → Bool
is_point self none = false
is_point self (some i) = i == self

abbrev push_if : {A : Type 0} → Bool → A → Outcome (List A) → Outcome (List A)
push_if b x (raise e) = raise e
push_if b x (ok xs) = ok (if b then x ∷ xs else xs)

-- An open point that was not skipped is a parent if it has the same communicator.
abbrev consider : ℕ → InjectionPoint → Outcome (List InjectionPoint) → Outcome (List InjectionPoint)
consider id point rest =
    if point.skipped
    then rest
    else elim point.comm [ none ↦ raise fault | some c ↦ push_if (c.unique_id == id) point rest ]

open_parents : Store → ℕ → List (Option ℕ) → Outcome (List InjectionPoint)
open_parents store id [] = ok []
open_parents store id (p ∷ ps) = elim (deref store p) [
  | raise e ↦ raise e
  | ok point ↦ consider id point (open_parents store id ps)
]

-- Everything below the point itself.
below : ℕ → List (Option ℕ) → List (Option ℕ)
below self [] = []
below self (p ∷ ps) = if is_point self p then ps else below self ps

unfoldable pub get_parents : Store → ℕ → Comm → Bool → Outcome (List InjectionPoint)
unfolding open_parents below
get_parents store self comm onqueue =
    open_parents store comm.unique_id (if onqueue then below self store.active else store.active)

module _ (body : TestBody) where
  abbrev pub label : InjectionPoint → Str
  label point = point.name ++ b':' ∷ point.stage_id

  pub run_tests_internal : InjectionPoint → Comm → DataCallback → Act Trace (Unit {0})
  run_tests_internal point comm callback = catch_vnv protected (pure tt)
    where
      protected : Act Trace (Unit {0})
      protected = do
        emit body (test_started point.package_name (str "__internal__") true (negsuc 0))
        catch_vnv (λ trace. (callback comm point.parameters point.type point.stage_id trace, trace))
            (pure tt)
        emit body (test_finished true)
        run_tests body comm point.type (label point) point.tests

  module _ (function : Str) (line : ℕ) where
    abbrev run_unskipped_child : InjectionPoint → Comm → InjectionPoint → Act Trace (Unit {0})
    run_unskipped_child child comm parent = do
      emit body (
          point_started comm.unique_id parent.package_name parent.name InjectionPointType.child_iter
            child.stage_id function line)
      run_tests body comm InjectionPointType.child_iter (label child) parent.tests
      emit body (point_ended parent.name parent.type parent.stage_id)

    pub run_child : InjectionPoint → InjectionPoint → Act Trace (Unit {0})
    run_child child parent = if parent.skipped then pure tt else elim parent.comm [
      | none ↦ throw fault
      | some comm ↦ run_unskipped_child child comm parent
    ]

    pub run_children : InjectionPoint → List InjectionPoint → Act Trace (Unit {0})
    run_children child [] = pure tt
    run_children child (p ∷ ps) = run_child child p >> run_children child ps

    -- The branch of `run` in which the point is run.
    unfoldable pub execute : Store → ℕ → InjectionPoint → Comm → DataCallback → Act Trace (Unit {0})
    unfolding run_tests_internal run_children run_child
    execute store self point comm callback = do
      emit body (
          point_started comm.unique_id point.package_name point.name point.type point.stage_id
            function line)
      run_tests_internal point comm callback
      emit body (point_ended point.name point.type point.stage_id)
      parents ← λ trace. (get_parents store self comm (not (is_end point.type)), trace)
      run_children point parents

-- What running a point reads and changes. `draws` counts the calls of rand().
pub record Machine : Type 0 where
  pub points : Points
  pub samplers : SamplerStore
  pub trace : Trace
  pub draws : ℕ

module _ (body : TestBody) (rand : ℕ → ℕ) where
  -- `sampler == nullptr ? true : sampler->sample(...)`
  unfoldable pub ask_sampler : InjectionPoint → Comm → Act Machine Bool
  ask_sampler point comm m =
      elim (get_sampler_for_injection_point point.package_name point.name m.samplers) [
        | none ↦ (ok true, m)
        | some s ↦
            let (answer, s') = sample (rand m.draws) s comm in
            (
              answer,
              record m {
                samplers = record (m.samplers) {
                  samplers = assign (key point.package_name point.name) s' m.samplers.samplers;
                };
                draws = m.draws + 1;
              },
            )
      ]

  abbrev pub set_point : ℕ → InjectionPoint → Machine → Machine
  set_point self point m = record m {
    points = record (m.points) {
      store = record (m.points.store) { points = set m.points.store.points self point };
    };
  }

  -- An End runs without asking, for its Begin has run.
  abbrev pub should_run : InjectionPoint → Comm → Act Machine Bool
  should_run point comm =
      if is_end point.type then (λ m. (ok true, m)) else (λ m. ask_sampler point comm m)

  abbrev pub act_on :
      ℕ → Str → ℕ → DataCallback → InjectionPoint → Comm → Bool → Act Machine (Unit {0})
  act_on self function line callback point comm true m =
      let (r, trace) = execute body function line m.points.store self point comm callback m.trace in
      (r, record m { trace = trace })
  act_on self function line callback point comm false m =
      if is_begin point.type
      then (ok tt, set_point self (record point { skipped = true }) m)
      else (ok tt, m)

  abbrev pub run_point : ℕ → Str → ℕ → DataCallback → InjectionPoint → Act Machine (Unit {0})
  run_point self function line callback point =
      if point.skipped then (λ m. (ok tt, m)) else elim point.comm [
        | none ↦ λ m. (raise fault, m)
        | some comm ↦
            should_run point comm >>= λ run_it. act_on self function line callback point comm run_it
      ]

  unfoldable pub run : ℕ → Str → ℕ → DataCallback → Act Machine (Unit {0})
  run self function line callback m = elim (deref m.points.store (some self)) [
    | raise e ↦ (raise e, m)
    | ok point ↦ run_point self function line callback point m
  ]
