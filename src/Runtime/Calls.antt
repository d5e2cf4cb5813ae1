-- ===== src/Runtime/Calls.antt =====
-- What each call at an injection point computes to, given what the actions and the store answer.
use vnv.Base.{
  ℕ, ◌≡◌, refl, true, List, none, some, Str, str, str_key, Outcome, ok, raise, vnv_exception, pure,
  handle_standard,
}
use vnv.Base.Dict.{Dict}
use vnv.Engine.{InjectionPointType, Comm, Trace}
use vnv.Injection.{Store, Points, get_new_injection_point, get_existing_injection_point}
use vnv.Injection.Run.{DataCallback, Machine, run}
use vnv.Actions.{Action, ActionBody, Actions, injection_point_start}
use vnv.Actions
use vnv.Runtime.{
  Plugins, RunTime, Site, begin_loop, iter_loop, end_loop, injection_point_begin,
  injection_point_iter, injection_point_end, modify_point,
}

-- The store when the point runs: at a Begin, and at an Iter or an End.
abbrev pub prepared : Comm → ℕ → Store → Store
prepared comm i store =
    modify_point (λ q. record q { comm = some comm }) i
      (modify_point (λ q. record q { type = InjectionPointType.begin; stage_id = str "Begin" }) i
        store)

abbrev pub staged : InjectionPointType → Str → ℕ → Store → Store
staged type stage_id i store =
    modify_point (λ q. record q { type = type; stage_id = stage_id }) i store

module _ (p : Plugins) where
  -- The runtime after a point has run.
  abbrev pub ran : Outcome (Unit {0}) × Machine → RunTime → Outcome (Unit {0}) × RunTime
  ran (o, m) r = handle_standard o (pure tt) (record r { machine = m })

  pub begin_loop-eq :
      (comm : Comm) (site : Site) (signature : Str) (args : Dict Str (Str × ℕ))
      (callback : DataCallback) (r : RunTime) (l : List Action) (t : Trace) (s' : Points) (i : ℕ)
      → r.run_tests ≡ true
      → injection_point_start p.action_body comm (r.actions, r.machine.trace) ≡ (ok tt, (l, t))
      → get_new_injection_point p.supplied site.package_name site.id signature
          InjectionPointType.begin args r.machine.points
        ≡ (ok (some i), s')
      → begin_loop p comm site signature args callback r
        ≡ ran
            (run p.test_body p.rand i site.function site.line callback (record (r.machine) {
              trace = t;
              points = record s' { store = prepared comm i s'.store };
            }))
            (record r { actions = l })
  unfolding begin_loop injection_point_begin
  begin_loop-eq comm site signature args callback r l t s' i on_ started made =
      rw (on_, started, made) refl

  pub begin_loop-unconfigured :
      (comm : Comm) (site : Site) (signature : Str) (args : Dict Str (Str × ℕ))
      (callback : DataCallback) (r : RunTime) (l : List Action) (t : Trace)
      → r.run_tests ≡ true
      → injection_point_start p.action_body comm (r.actions, r.machine.trace) ≡ (ok tt, (l, t))
      → get_new_injection_point p.supplied site.package_name site.id signature
          InjectionPointType.begin args r.machine.points
        ≡ (ok none, r.machine.points)
      → begin_loop p comm site signature args callback r
        ≡ (ok tt, record r { actions = l; machine = record (r.machine) { trace = t } })
  unfolding begin_loop injection_point_begin
  begin_loop-unconfigured comm site signature args callback r l t on_ started made =
      rw (on_, started, made) refl

  -- A call that fetches an open point.
  abbrev fetched :
      InjectionPointType
      → Str
      → Site
      → DataCallback
      → ℕ
      → Store
      → List Action
      → Trace
      → RunTime
      → Outcome (Unit {0}) × RunTime
  fetched type stage_id site callback i store l t r =
      ran
        (run p.test_body p.rand i site.function site.line callback (record (r.machine) {
          trace = t;
          points = record (r.machine.points) { store = staged type stage_id i store };
        }))
        (record r { actions = l })

  pub iter_loop-eq :
      (site : Site) (stage_id : Str) (callback : DataCallback) (r : RunTime) (l : List Action)
      (t : Trace) (i : ℕ) (store : Store)
      → r.run_tests ≡ true
      → get_existing_injection_point site.package_name site.id InjectionPointType.iter
          r.machine.points.store
        ≡ (ok (some i), store)
      → Actions.injection_point_iter p.action_body (r.actions, r.machine.trace) ≡ (ok tt, (l, t))
      → iter_loop p site stage_id callback r
        ≡ fetched InjectionPointType.iter stage_id site callback i store l t r
  unfolding iter_loop injection_point_iter
  iter_loop-eq site stage_id callback r l t i store on_ made told = rw (on_, made, told) refl

  pub iter_loop-nothing :
      (site : Site) (stage_id : Str) (callback : DataCallback) (r : RunTime) (l : List Action)
      (t : Trace)
      → r.run_tests ≡ true
      → get_existing_injection_point site.package_name site.id InjectionPointType.iter
          r.machine.points.store
        ≡ (ok none, r.machine.points.store)
      → Actions.injection_point_iter p.action_body (r.actions, r.machine.trace) ≡ (ok tt, (l, t))
      → iter_loop p site stage_id callback r
        ≡ (ok tt, record r { actions = l; machine = record (r.machine) { trace = t } })
  unfolding iter_loop injection_point_iter
  iter_loop-nothing site stage_id callback r l t on_ made told = rw (on_, made, told) refl

  pub iter_loop-throws :
      (site : Site) (stage_id : Str) (callback : DataCallback) (r : RunTime)
      → r.run_tests ≡ true
      → get_existing_injection_point site.package_name site.id InjectionPointType.iter
          r.machine.points.store
        ≡ (raise vnv_exception, r.machine.points.store)
      → iter_loop p site stage_id callback r ≡ (ok tt, r)
  unfolding iter_loop injection_point_iter
  iter_loop-throws site stage_id callback r on_ made = rw (on_, made) refl

  pub end_loop-eq :
      (site : Site) (callback : DataCallback) (r : RunTime) (l : List Action) (t : Trace) (i : ℕ)
      (store : Store)
      → r.run_tests ≡ true
      → get_existing_injection_point site.package_name site.id InjectionPointType.end
          r.machine.points.store
        ≡ (ok (some i), store)
      → Actions.injection_point_end p.action_body (r.actions, r.machine.trace) ≡ (ok tt, (l, t))
      → end_loop p site callback r
        ≡ fetched InjectionPointType.end (str "End") site callback i store l t r
  unfolding end_loop injection_point_end
  end_loop-eq site callback r l t i store on_ made told = rw (on_, made, told) refl

  pub end_loop-nothing :
      (site : Site) (callback : DataCallback) (r : RunTime) (l : List Action) (t : Trace)
      → r.run_tests ≡ true
      → get_existing_injection_point site.package_name site.id InjectionPointType.end
          r.machine.points.store
        ≡ (ok none, r.machine.points.store)
      → Actions.injection_point_end p.action_body (r.actions, r.machine.trace) ≡ (ok tt, (l, t))
      → end_loop p site callback r
        ≡ (ok tt, record r { actions = l; machine = record (r.machine) { trace = t } })
  unfolding end_loop injection_point_end
  end_loop-nothing site callback r l t on_ made told = rw (on_, made, told) refl
