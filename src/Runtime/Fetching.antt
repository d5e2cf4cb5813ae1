-- ===== src/Runtime/Fetching.antt =====
-- An Iter and an End: what they leave as it was, and what an End takes off the stack.
use vnv.Base.{
  ℕ, ◌≡◌, refl, sym, ◌∙◌, ap, subst, inl, inr, true, List, ◌∷◌, Option, some, Str, str, str_key,
  str_eq_iff, ok, get_elem?, All, map,
}
use vnv.Engine.{InjectionPointType, Trace}
use vnv.Testing.{key}
use vnv.Injection.{Store, point_key}
use vnv.Injection.Active.{existing_unconfigured, end_closes}
use vnv.Injection.Run.{DataCallback, run}
use vnv.Injection.Run.Tame.{IsTame, IsTameCallback, IsOpen}
use vnv.Actions.{Action, ActionBody, Actions}
use vnv.Actions
use vnv.Actions.Nesting.{IsCalm, pop, IsReady, iter_keeps, end-map}
use vnv.Runtime.{Plugins, RunTime, Site, iter_loop, end_loop}
use vnv.Runtime.Keeps.{Keeps, Keeps-refl, All-IsOpen-Keeps}
use vnv.Runtime.Modified.{staged-Modified}
use vnv.Runtime.Calls.{
  ran, staged, iter_loop-eq, iter_loop-nothing, iter_loop-throws, end_loop-eq, end_loop-nothing,
}
use vnv.Runtime.Finding.{iter_finds}
use vnv.Runtime.Steps.{IsSound, Stepped, Opened, settle, ran-Stepped, told-Stepped}

module _ (p : Plugins) (tame : IsTame p.test_body) (calm : IsCalm p.action_body) where
  -- A point runs that was fetched from the store, which may have lost the top of its stack.
  fetched-Stepped :
      (type : InjectionPointType) (stage_id : Str) (site : Site) (callback : DataCallback)
      (r : RunTime) (l : List Action) (t : Trace) (s : Store) (i : ℕ)
      → IsTameCallback callback
      → IsSound r
      → s.injection_points ≡ r.machine.points.store.injection_points
      → s.registered ≡ r.machine.points.store.registered
      → s.points ≡ r.machine.points.store.points
      → All (IsOpen s) s.active
      → IsOpen s (some i)
      → (r' : RunTime) × (ran p
            (run p.test_body p.rand i site.function site.line callback (record (r.machine) {
              trace = t;
              points = record (r.machine.points) { store = staged type stage_id i s };
            }))
            (record r { actions = l })
          ≡ (ok tt, r'))
        × Stepped r r'
        × (r'.actions ≡ l)
        × (r'.machine.points.store.active ≡ s.active)
        × All (IsOpen r'.machine.points.store) r'.machine.points.store.active
  fetched-Stepped type stage_id site callback r l t s i quiet h e e' e'' all open_ =
      let (j, q, ij, there, has) = open_ in
      let there' : get_elem? s.points i ≡ some q =
        ap (λ k. get_elem? s.points k) (some_injective ij) ∙ there in
      let md = staged-Modified type stage_id i s q there' in
      let new = staged type stage_id i s in
      let all' : All (IsOpen new) new.active =
        subst (All (IsOpen new)) (sym md.active) (All-IsOpen-Keeps s new s.active md.points all) in
      let (r', o, st, ea, ev, kp) =
        ran-Stepped p tame calm r l
          (record (r.machine) { trace = t; points = record (r.machine.points) { store = new } }) i
          (record q { type = type; stage_id = stage_id }) site callback quiet
          (md.injection_points ∙ e) (md.registered ∙ e')
          (subst (λ k. Keeps k new.points) e'' md.points) h.safe md.there has all' in
      (
        r',
        o,
        st,
        ea,
        ev ∙ md.active,
        subst (All (IsOpen r'.machine.points.store)) (sym ev)
            (All-IsOpen-Keeps new r'.machine.points.store new.active kp all'),
      )
    where
      some_injective : {a b : ℕ} → some a ≡ some b → a ≡ b
      some_injective e = cc

  module _ (site : Site) (callback : DataCallback) (quiet : IsTameCallback callback) (r : RunTime)
      (h : IsSound r) (ready : All (IsReady true) r.actions) where
    -- Iter: nothing is thrown, and the stack and the actions stay.
    pub iter_steps :
        (stage_id : Str)
        → (r' : RunTime) × (iter_loop p site stage_id callback r ≡ (ok tt, r'))
          × Stepped r r'
          × (r'.actions ≡ r.actions)
          × (r'.machine.points.store.active ≡ r.machine.points.store.active)
          × All (IsOpen r'.machine.points.store) r'.machine.points.store.active
    iter_steps stage_id =
        let s = r.machine.points.store in
        let told = Actions.injection_point_iter p.action_body (r.actions, r.machine.trace) in
        let (x, y) = iter_keeps p.action_body calm r.actions r.machine.trace ready in
        let told_eq = settle told (ok tt) r.actions x y in
        elim (iter_finds site.package_name site.id s h.live) [
          | inl throws ↦ (
            r,
            iter_loop-throws p site stage_id callback r h.on_ throws,
            told-Stepped p tame calm r r.actions r.machine.trace h,
            refl,
            refl,
            h.live,
          )
          | inr (inl nothing) ↦ (
            record r { machine = record (r.machine) { trace = told.1.1 } },
            iter_loop-nothing p site stage_id callback r r.actions told.1.1 h.on_ nothing told_eq,
            told-Stepped p tame calm r r.actions told.1.1 h,
            refl,
            refl,
            h.live,
          )
          | inr (inr (i, found, open_)) ↦
              let (r', e, st, ea, ev, live) =
                fetched-Stepped InjectionPointType.iter stage_id site callback r r.actions told.1.1
                  s i quiet h refl refl refl h.live open_ in
              (
                r',
                iter_loop-eq p site stage_id callback r r.actions told.1.1 i s h.on_ found told_eq
                    ∙ e,
                st,
                ea,
                ev,
                live,
              )
        ]

    -- End: nothing is thrown, the actions that take part lose the communicator, and the point of
    -- the Begin is off the stack.
    pub end_steps :
        (rest : List (Option ℕ))
        → Opened site.package_name site.id rest r.machine.points.store
        → (r' : RunTime) × (end_loop p site callback r ≡ (ok tt, r'))
          × Stepped r r'
          × (r'.actions ≡ map pop r.actions)
          × (r'.machine.points.store.active ≡ rest)
          × All (IsOpen r'.machine.points.store) r'.machine.points.store.active
    end_steps rest opened =
        let s = r.machine.points.store in
        let told = Actions.injection_point_end p.action_body (r.actions, r.machine.trace) in
        let (x, y) = end-map p.action_body calm r.actions r.machine.trace ready in
        let told_eq = settle told (ok tt) (map pop r.actions) x y in
        elim opened [
          | inr (other, last) ↦ (
            record r {
              actions = map pop r.actions;
              machine = record (r.machine) { trace = told.1.1 };
            },
            end_loop-nothing p site callback r (map pop r.actions) told.1.1 h.on_
                (existing_unconfigured site.package_name site.id InjectionPointType.end s other)
                told_eq,
            told-Stepped p tame calm r (map pop r.actions) told.1.1 h,
            refl,
            last,
            h.live,
          )
          | inl (i, q, configured, last, there, pn, n, has) ↦
              let all : All (IsOpen s) (some i ∷ rest) = subst (All (IsOpen s)) last h.live in
              let s' : Store = record s { active = rest } in
              let (r', e, st, ea, ev, live) =
                fetched-Stepped InjectionPointType.end (str "End") site callback r
                  (map pop r.actions) told.1.1 s' i quiet h refl refl refl
                  (All-IsOpen-Keeps s s' rest (Keeps-refl s.points) all.1)
                  (i, q, refl, there, has) in
              let same : key site.package_name site.id ≡ point_key q = cc in
              let closed =
                end_closes s i rest q site.package_name site.id configured last there
                ∙ rw ((str_eq_iff (key site.package_name site.id) (point_key q)).1 same) refl in
              (
                r',
                end_loop-eq p site callback r (map pop r.actions) told.1.1 i s' h.on_ closed told_eq
                    ∙ e,
                st,
                ea,
                ev,
                live,
              )
        ]
