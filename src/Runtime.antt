-- ===== src/Runtime.antt =====
-- The calls that an application makes at its injection points: the injection point part of
-- injection/src/base/Runtime.cpp, and CppInjection of injection/src/interfaces/Injection.cpp, which
-- takes every std::exception. Reading back the application's own output is not modelled.
pub mod Keeps
pub mod Running
pub mod Calls
pub mod Modified
pub mod Steps
pub mod Beginning
pub mod Finding
pub mod Fetching
pub mod Nesting
mod Examples
use vnv.Base.{
  ℕ, Bool, true, false, List, [], ◌∷◌, Option, none, some, Str, str, if◌then◌else◌, Outcome, ok,
  raise, text, Act, pure, throw, ◌>>=◌, ◌>>◌, catch_standard, handle_standard, get_elem?, set,
}
use vnv.Base.Dict.{Dict}
use vnv.Engine.{InjectionPointType, Comm, Trace}
use vnv.Testing.Runs.{TestBody}
use vnv.Injection.{
  Supplied, InjectionPoint, Store, Points, get_new_injection_point, get_existing_injection_point,
}
use vnv.Injection.Run.{DataCallback, Machine, run}
use vnv.Actions.{Action, ActionBody, Actions}
use vnv.Actions

-- What the plug-ins and the libraries supply.
pub record Plugins : Type 0 where
  pub supplied : Supplied
  pub test_body : TestBody
  pub action_body : ActionBody
  pub rand : ℕ → ℕ

pub record RunTime : Type 0 where
  pub run_tests : Bool
  pub machine : Machine
  pub actions : List Action

abbrev pub on_machine {ℓ} : {A : Type ℓ} → Act Machine A → Act RunTime A
on_machine m r = let (o, s) = m r.machine in (o, record r { machine = s })

abbrev pub on_points {ℓ} : {A : Type ℓ} → Act Points A → Act RunTime A
on_points m r =
    let (o, s) = m r.machine.points in (o, record r { machine = record (r.machine) { points = s } })

abbrev pub on_store {ℓ} : {A : Type ℓ} → Act Store A → Act RunTime A
on_store m = on_points λ p. let (o, s) = m p.store in (o, record p { store = s })

abbrev pub on_actions {ℓ} : {A : Type ℓ} → Act Actions A → Act RunTime A
on_actions m r =
    let (o, (actions, trace)) = m (r.actions, r.machine.trace) in
    (o, record r { machine = record (r.machine) { trace = trace }; actions = actions })

abbrev pub modify_point : (InjectionPoint → InjectionPoint) → ℕ → Store → Store
modify_point f i store = elim (get_elem? store.points i) [
  | none ↦ store
  | some p ↦ record store { points = set store.points i (f p) }
]

abbrev set_injection_point_type : InjectionPointType → Str → ℕ → Act RunTime (Unit {0})
set_injection_point_type type stage_id i =
    on_store λ s. (ok tt, modify_point (λ p. record p { type = type; stage_id = stage_id }) i s)

abbrev set_comm : Comm → ℕ → Act RunTime (Unit {0})
set_comm comm i = on_store λ s. (ok tt, modify_point (λ p. record p { comm = some comm }) i s)

abbrev typed : InjectionPointType → Str → Option ℕ → Act RunTime (Option ℕ)
typed type stage_id none = pure none
typed type stage_id (some i) = set_injection_point_type type stage_id i >> pure (some i)

-- One place in the program: the package and the name of the point, and where the call stands.
pub record Site : Type 0 where
  pub package_name : Str
  pub id : Str
  pub function : Str
  pub line : ℕ

module _ (p : Plugins) where
  abbrev run_some : Site → DataCallback → Option ℕ → Act RunTime (Unit {0})
  run_some site callback none = pure tt
  run_some site callback (some i) =
      on_machine (run p.test_body p.rand i site.function site.line callback)

  abbrev run_new : Comm → Site → DataCallback → Option ℕ → Act RunTime (Unit {0})
  run_new comm site callback none = pure tt
  run_new comm site callback (some i) = set_comm comm i >> run_some site callback (some i)

  abbrev new_point :
      Comm → Site → Str → InjectionPointType → Dict Str (Str × ℕ) → Act RunTime (Option ℕ)
  new_point comm site signature type args r = if r.run_tests then make r else (ok none, r)
    where
      make : Act RunTime (Option ℕ)
      make = do
        on_actions (Actions.injection_point_start p.action_body comm)
        i ←
            on_points
              (get_new_injection_point p.supplied site.package_name site.id signature type args)
        typed type (str "Begin") i

  abbrev stage_actions : InjectionPointType → Act RunTime (Unit {0})
  stage_actions InjectionPointType.end = on_actions (Actions.injection_point_end p.action_body)
  stage_actions _ = on_actions (Actions.injection_point_iter p.action_body)

  abbrev existing_point : Site → InjectionPointType → Str → Act RunTime (Option ℕ)
  existing_point site type stage_id r = if r.run_tests then fetch r else (ok none, r)
    where
      fetch : Act RunTime (Option ℕ)
      fetch = do
        i ← on_store (get_existing_injection_point site.package_name site.id type)
        stage_actions type
        typed type stage_id i

  unfoldable pub injection_point_begin :
      Comm → Site → Str → Dict Str (Str × ℕ) → DataCallback → Act RunTime (Unit {0})
  injection_point_begin comm site signature args callback r =
      if r.run_tests then called r else (ok tt, r)
    where
      called : Act RunTime (Unit {0})
      called = do
        i ← new_point comm site signature InjectionPointType.begin args
        run_new comm site callback i

  unfoldable pub injection_point_iter : Site → Str → DataCallback → Act RunTime (Unit {0})
  injection_point_iter site stage_id callback r = if r.run_tests then called r else (ok tt, r)
    where
      called : Act RunTime (Unit {0})
      called = do i ← existing_point site InjectionPointType.iter stage_id; run_some site callback i

  unfoldable pub injection_point_end : Site → DataCallback → Act RunTime (Unit {0})
  injection_point_end site callback r = if r.run_tests then called r else (ok tt, r)
    where
      called : Act RunTime (Unit {0})
      called = do
        i ← existing_point site InjectionPointType.end (str "End")
        run_some site callback i

  -- BeginLoop, IterLoop and EndLoop
  unfoldable pub begin_loop :
      Comm → Site → Str → Dict Str (Str × ℕ) → DataCallback → Act RunTime (Unit {0})
  begin_loop comm site signature args callback =
      catch_standard (injection_point_begin comm site signature args callback) (pure tt)

  unfoldable pub iter_loop : Site → Str → DataCallback → Act RunTime (Unit {0})
  iter_loop site stage_id callback =
      catch_standard (injection_point_iter site stage_id callback) (pure tt)

  unfoldable pub end_loop : Site → DataCallback → Act RunTime (Unit {0})
  end_loop site callback = catch_standard (injection_point_end site callback) (pure tt)
