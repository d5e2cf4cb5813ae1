-- ===== src/Runtime/Beginning.antt =====
-- A Begin: what it leaves as it was, and what it puts on the stack.
use vnv.Base.{
  ℕ, ◌≡◌, refl, sym, ◌∙◌, ap, subst, inl, inr, Bool, true, List, [], ◌∷◌, ◌++◌, some, Str, str_key,
  ok, length, get_elem?, All, Bool-cases, map,
}
use vnv.Base.Dict.{Dict, contains}
use vnv.Engine.{Comm, Trace}
use vnv.Testing.{key}
use vnv.Injection.Active.{begin_pushes, begin_unconfigured}
use vnv.Injection.Run.{DataCallback}
use vnv.Injection.Run.Tame.{IsTame, IsTameCallback, IsOpen}
use vnv.Actions.{Action, ActionBody, Actions}
use vnv.Actions
use vnv.Testing.{TestConfig}
use vnv.Actions.Nesting.{IsCalm, push, IsReady, start-map}
use vnv.Runtime.{Plugins, RunTime, Site, begin_loop}
use vnv.Runtime.Keeps.{Keeps, Keeps-trans, Keeps-append, All-IsOpen-Keeps}
use vnv.Runtime.Modified.{prepared-Modified}
use vnv.Runtime.Calls.{prepared, begin_loop-eq, begin_loop-unconfigured}
use vnv.Runtime.Steps.{IsSound, Stepped, Opened, Opened-Keeps, settle, ran-Stepped, told-Stepped}

get_elem?-append_length {ℓ} :
    {A : Type ℓ} (l : List A) (x : A) → get_elem? (l ++ x ∷ []) (length l) ≡ some x
get_elem?-append_length [] x = refl
get_elem?-append_length (y ∷ l) x = get_elem?-append_length l x

module _ (p : Plugins) (tame : IsTame p.test_body) (calm : IsCalm p.action_body)
    (willing : (c : TestConfig) → p.supplied.make c ≡ ok tt) where
  module _ (comm : Comm) (site : Site) (signature : Str) (args : Dict Str (Str × ℕ))
      (callback : DataCallback) (quiet : IsTameCallback callback) (r : RunTime)
      (h : IsSound r) where
    begin_configured :
        (l : List Action) (t : Trace)
        → contains (key site.package_name site.id) r.machine.points.store.injection_points ≡ true
        → Actions.injection_point_start p.action_body comm (r.actions, r.machine.trace)
          ≡ (ok tt, (l, t))
        → (r' : RunTime) × (begin_loop p comm site signature args callback r ≡ (ok tt, r'))
          × Stepped r r'
          × (r'.actions ≡ l)
          × Opened site.package_name site.id r.machine.points.store.active r'.machine.points.store
          × All (IsOpen r'.machine.points.store) r'.machine.points.store.active
    begin_configured l t configured started =
        let old = r.machine.points.store in
        let i = length old.points in
        let (point, s', made, se, pn, n, sk, nc) =
          begin_pushes p.supplied site.package_name site.id signature args r.machine.points willing
            h.registered configured in
        let there : get_elem? s'.store.points i ≡ some point =
          ap (λ s. get_elem? s.points i) se ∙ get_elem?-append_length old.points point in
        let (v, md, vp, vn, vc) = prepared-Modified comm i s'.store point there nc in
        let new = prepared comm i s'.store in
        let same : new.injection_points ≡ old.injection_points =
          md.injection_points ∙ ap (λ s. s.injection_points) se in
        let keeps =
          Keeps-trans
            (subst (λ s. Keeps old.points s.points) (sym se) (Keeps-append old.points point))
            md.points in
        let last : new.active ≡ some i ∷ old.active = md.active ∙ ap (λ s. s.active) se in
        let all : All (IsOpen new) new.active =
          subst (All (IsOpen new)) (sym last) (
            (i, v, refl, md.there, (comm, vc)),
            All-IsOpen-Keeps old new old.active keeps h.live,
          ) in
        let (r', e, st, ea, ev, kp) =
          ran-Stepped p tame calm r l
            (record (r.machine) { trace = t; points = record s' { store = new } }) i v site callback
            quiet same (md.registered ∙ ap (λ s. s.registered) se) keeps h.safe md.there (comm, vc)
            all in
        (
          r',
          begin_loop-eq p comm site signature args callback r l t s' i h.on_ started made ∙ e,
          st,
          ea,
          Opened-Keeps site.package_name site.id old.active new r'.machine.points.store
              (st.injection_points ∙ sym same) ev kp
              (inl (
                i,
                v,
                ap (λ m. contains (key site.package_name site.id) m) same ∙ configured,
                last,
                md.there,
                vp ∙ pn,
                vn ∙ n,
                (comm, vc),
              )),
          subst (All (IsOpen r'.machine.points.store)) (sym ev)
              (All-IsOpen-Keeps new r'.machine.points.store new.active kp all),
        )

    -- Begin: nothing is thrown, the actions that take part have its communicator, and the point is
    -- on the stack where it is configured.
    pub begin_steps :
        (b : Bool)
        → All (IsReady b) r.actions
        → (r' : RunTime) × (begin_loop p comm site signature args callback r ≡ (ok tt, r'))
          × Stepped r r'
          × (r'.actions ≡ map (push comm) r.actions)
          × Opened site.package_name site.id r.machine.points.store.active r'.machine.points.store
          × All (IsOpen r'.machine.points.store) r'.machine.points.store.active
    begin_steps b ready =
        let told = Actions.injection_point_start p.action_body comm (r.actions, r.machine.trace) in
        let (x, y) = start-map p.action_body calm b comm r.actions r.machine.trace ready in
        let started = settle told (ok tt) (map (push comm) r.actions) x y in
        elim (Bool-cases
          (contains (key site.package_name site.id) r.machine.points.store.injection_points)) [
            | inl configured ↦
                begin_configured (map (push comm) r.actions) told.1.1 configured started
            | inr other ↦ (
              record r {
                actions = map (push comm) r.actions;
                machine = record (r.machine) { trace = told.1.1 };
              },
              begin_loop-unconfigured p comm site signature args callback r
                  (map (push comm) r.actions) told.1.1 h.on_ started
                  (begin_unconfigured p.supplied site.package_name site.id signature args
                    r.machine.points other),
              told-Stepped p tame calm r (map (push comm) r.actions) told.1.1 h,
              refl,
              inr (other, refl),
              h.live,
            )
          ]
