-- ===== src/Runtime/Steps.antt =====
-- What one call at an injection point leaves as it was.
use vnv.Base.{
  ℕ, ◌≡◌, refl, sym, ◌∙◌, ap, ◌⊎◌, inl, inr, true, false, List, ◌∷◌, Option, some, Str, str_key,
  Outcome, ok, raise, text, fault, standard, vnv_exception, get_elem?, All,
}
use vnv.Base.Dict.{find, contains}
use vnv.Engine.{Trace}
use vnv.Samplers.Safety.{AllSafe}
use vnv.Testing.{key}
use vnv.Injection.{InjectionPoint, Store}
use vnv.Injection.Active.{AllRegistered}
use vnv.Injection.Run.{DataCallback, Machine, run}
use vnv.Injection.Run.Tame.{IsCaught, IsTame, IsTameCallback, IsOpen, HasComm}
use vnv.Actions.{Action}
use vnv.Actions.Nesting.{IsCalm}
use vnv.Runtime.{Plugins, RunTime, Site}
use vnv.Runtime.Keeps.{Keeps, Keeps-refl, Keeps-trans}
use vnv.Runtime.Running.{run-Keeps}
use vnv.Runtime.Calls.{ran}

-- A runtime that runs tests, whose tables and stack are in order.
pub record IsSound (r : RunTime) : Type 0 where
  pub on_ : r.run_tests ≡ true
  pub registered : AllRegistered r.machine.points.store
  pub safe : AllSafe r.machine.samplers.samplers
  pub live : All (IsOpen r.machine.points.store) r.machine.points.store.active

-- What every call keeps.
pub record Stepped (r r' : RunTime) : Type 0 where
  pub on_ : r'.run_tests ≡ r.run_tests
  pub injection_points :
      r'.machine.points.store.injection_points ≡ r.machine.points.store.injection_points
  pub registered : r'.machine.points.store.registered ≡ r.machine.points.store.registered
  pub points : Keeps r.machine.points.store.points r'.machine.points.store.points
  pub safe : AllSafe r'.machine.samplers.samplers

pub Stepped-refl : (r : RunTime) → IsSound r → Stepped r r
Stepped-refl r h = record {
  on_ = refl;
  injection_points = refl;
  registered = refl;
  points = Keeps-refl r.machine.points.store.points;
  safe = h.safe;
}

pub Stepped-trans : {a b c : RunTime} → Stepped a b → Stepped b c → Stepped a c
Stepped-trans h k = record {
  on_ = k.on_ ∙ h.on_;
  injection_points = k.injection_points ∙ h.injection_points;
  registered = k.registered ∙ h.registered;
  points = Keeps-trans h.points k.points;
  safe = k.safe;
}

AllRegistered-same :
    (s s' : Store)
    → s'.injection_points ≡ s.injection_points
    → s'.registered ≡ s.registered
    → AllRegistered s
    → AllRegistered s'
AllRegistered-same s s' e e' h = record {
  spec_of = λ k c found.
      let (spec, there, alone) = h.spec_of k c (ap (λ m. find k m) (sym e) ∙ found) in
      (spec, ap (λ m. find k m) e' ∙ there, alone);
}

-- A call that leaves a stack of open points leaves the runtime sound.
pub Stepped-IsSound :
    {r r' : RunTime}
    → IsSound r
    → Stepped r r'
    → All (IsOpen r'.machine.points.store) r'.machine.points.store.active
    → IsSound r'
Stepped-IsSound {r} {r'} h s live = record {
  on_ = s.on_ ∙ h.on_;
  registered =
      AllRegistered-same r.machine.points.store r'.machine.points.store s.injection_points
        s.registered h.registered;
  safe = s.safe;
  live = live;
}

-- The stack after the Begin of a point: its object on top where it is configured.
abbrev pub Opened : Str → Str → List (Option ℕ) → Store → Type 0
Opened package_name name rest s =
    ((i : ℕ) × (q : InjectionPoint) × (contains (key package_name name) s.injection_points ≡ true)
      × (s.active ≡ some i ∷ rest)
      × (get_elem? s.points i ≡ some q)
      × (q.package_name ≡ package_name)
      × (q.name ≡ name)
      × HasComm q)
    ⊎ ((contains (key package_name name) s.injection_points ≡ false) × (s.active ≡ rest))

pub Opened-Keeps :
    (package_name name : Str) (rest : List (Option ℕ)) (s s' : Store)
    → s'.injection_points ≡ s.injection_points
    → s'.active ≡ s.active
    → Keeps s.points s'.points
    → Opened package_name name rest s
    → Opened package_name name rest s'
Opened-Keeps package_name name rest s s' e a k (inl (i, q, conf, last, there, x, y, (c, has))) =
    let (q', there', x', y', z) = k.kept i q there in
    inl (
      i,
      q',
      ap (λ m. contains (key package_name name) m) e ∙ conf,
      a ∙ last,
      there',
      x' ∙ x,
      y' ∙ y,
      (c, z c has),
    )
Opened-Keeps package_name name rest s s' e a k (inr (conf, last)) =
    inr (ap (λ m. contains (key package_name name) m) e ∙ conf, a ∙ last)

-- An outcome that is known to be normal.
pub settle {ℓ κ} :
    {A : Type ℓ} {B : Type κ} (x : A × (B × Trace)) (a : A) (b : B)
    → x.0 ≡ a
    → x.1.0 ≡ b
    → x ≡ (a, (b, x.1.1))
settle x a b e f = cc

module _ (p : Plugins) (tame : IsTame p.test_body) (calm : IsCalm p.action_body) where
  ran-caught :
      (o : Outcome (Unit {0})) (m : Machine) (r : RunTime)
      → IsCaught o
      → ran p (o, m) r ≡ (ok tt, record r { machine = m })
  ran-caught (ok u) m r h = refl
  ran-caught (raise vnv_exception) m r h = refl
  ran-caught (raise standard) m r h = refl
  ran-caught (raise text) m r h = absurd (h.0 refl)
  ran-caught (raise fault) m r h = absurd (h.1 refl)

  -- A point runs on a machine that was made ready for it.
  pub ran-Stepped :
      (r : RunTime) (l : List Action) (m : Machine) (i : ℕ) (q : InjectionPoint) (site : Site)
      (callback : DataCallback)
      → IsTameCallback callback
      → m.points.store.injection_points ≡ r.machine.points.store.injection_points
      → m.points.store.registered ≡ r.machine.points.store.registered
      → Keeps r.machine.points.store.points m.points.store.points
      → AllSafe m.samplers.samplers
      → get_elem? m.points.store.points i ≡ some q
      → HasComm q
      → All (IsOpen m.points.store) m.points.store.active
      → (r' : RunTime) × (ran p
            (run p.test_body p.rand i site.function site.line callback m)
            (record r { actions = l })
          ≡ (ok tt, r'))
        × Stepped r r'
        × (r'.actions ≡ l)
        × (r'.machine.points.store.active ≡ m.points.store.active)
        × Keeps m.points.store.points r'.machine.points.store.points
  ran-Stepped r l m i q site callback quiet e e' keeps safe there has all =
      let (caught, k) =
        run-Keeps p.test_body p.rand i site.function site.line callback q m tame quiet all safe
          there has in
      let (o, m') = run p.test_body p.rand i site.function site.line callback m in
      (
        record r { actions = l; machine = m' },
        ran-caught o m' (record r { actions = l }) caught,
        record {
          on_ = refl;
          injection_points = k.injection_points ∙ e;
          registered = k.registered ∙ e';
          points = Keeps-trans keeps k.points;
          safe = k.safe;
        },
        refl,
        k.active,
        k.points,
      )

  -- Where there is no point, only the actions are told.
  pub told-Stepped :
      (r : RunTime) (l : List Action) (t : Trace)
      → IsSound r
      → Stepped r (record r { actions = l; machine = record (r.machine) { trace = t } })
  told-Stepped r l t h = record {
    on_ = refl;
    injection_points = refl;
    registered = refl;
    points = Keeps-refl r.machine.points.store.points;
    safe = h.safe;
  }
