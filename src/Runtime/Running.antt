-- ===== src/Runtime/Running.antt =====
-- Running a point keeps the stack and the tables, and throws only what CppInjection takes.
use vnv.Base.{
  ℕ, ◌≡◌, refl, sym, ◌∙◌, ap, subst, inl, inr, Bool, true, false, some, Str, Outcome, ok, raise,
  and_then, arith, get_elem?, All, Option-cases, Bool-cases, str_key,
}
use vnv.Engine.{Comm}
use vnv.Samplers.{sample}
use vnv.Samplers.Store.{get_sampler_for_injection_point}
use vnv.Samplers.Safety.{AllSafe, AllSafe-assign, sample-IsSafe}
use vnv.Testing.{key}
use vnv.Testing.Runs.{TestBody}
use vnv.Injection.{InjectionPoint}
use vnv.Injection.Run.{DataCallback, Machine, run, ask_sampler, is_end, is_begin, act_on}
use vnv.Injection.Run.Tame.{IsCaught, IsTame, IsTameCallback, IsOpen, HasComm, execute-IsCaught}
use vnv.Runtime.Keeps.{Keeps, Keeps-refl, Keeps-set}

-- What running a point does to the machine.
pub record RunKeeps (m m' : Machine) : Type 0 where
  pub active : m'.points.store.active ≡ m.points.store.active
  pub injection_points : m'.points.store.injection_points ≡ m.points.store.injection_points
  pub registered : m'.points.store.registered ≡ m.points.store.registered
  pub points : Keeps m.points.store.points m'.points.store.points
  pub safe : AllSafe m'.samplers.samplers

module _ (body : TestBody) (rand : ℕ → ℕ) where
  ask_sampler-AllSafe :
      (point : InjectionPoint) (comm : Comm) (m : Machine)
      → AllSafe m.samplers.samplers
      → IsCaught (ask_sampler body rand point comm m).0
        × ((ask_sampler body rand point comm m).1.points ≡ m.points)
        × AllSafe (ask_sampler body rand point comm m).1.samplers.samplers
  unfolding ask_sampler get_sampler_for_injection_point
  ask_sampler-AllSafe point comm m h =
      elim (Option-cases
        (get_sampler_for_injection_point point.package_name point.name m.samplers)) [
          | inl none_ ↦
              rw (none_, ask_sampler, get_sampler_for_injection_point)
                ((ground arith, ground arith), refl, h)
          | inr (s, e) ↦
              let h' =
                sample-IsSafe (rand m.draws) s comm
                  (h.safe (key point.package_name point.name) s e) in
              rw (e, ask_sampler, get_sampler_for_injection_point)
                (
                  (h'.0, h'.1),
                  refl,
                  AllSafe-assign (key point.package_name point.name)
                      (sample (rand m.draws) s comm).1 m.samplers.samplers h h'.2,
                )
        ]

  act_on-Keeps :
      (self : ℕ) (function : Str) (line : ℕ) (callback : DataCallback) (point : InjectionPoint)
      (comm : Comm) (run_it : Bool) (m : Machine)
      → IsTame body
      → IsTameCallback callback
      → All (IsOpen m.points.store) m.points.store.active
      → AllSafe m.samplers.samplers
      → get_elem? m.points.store.points self ≡ some point
      → IsCaught (act_on body rand self function line callback point comm run_it m).0
        × RunKeeps m (act_on body rand self function line callback point comm run_it m).1
  act_on-Keeps self function line callback point comm true m tame calm all safe there = (
    execute-IsCaught body tame function line m.points.store self point comm callback m.trace calm
        all,
    record {
      active = refl;
      injection_points = refl;
      registered = refl;
      points = Keeps-refl m.points.store.points;
      safe = safe;
    },
  )
  act_on-Keeps self function line callback point comm false m tame calm all safe there =
      elim (Bool-cases (is_begin point.type)) [
        | inl begin_ ↦ rw begin_ (
          (ground arith, ground arith),
          record {
            active = refl;
            injection_points = refl;
            registered = refl;
            points =
                Keeps-set m.points.store.points self point (record point { skipped = true }) there
                  refl refl (λ c h. h);
            safe = safe;
          },
        )
        | inr other ↦ rw other (
          (ground arith, ground arith),
          record {
            active = refl;
            injection_points = refl;
            registered = refl;
            points = Keeps-refl m.points.store.points;
            safe = safe;
          },
        )
      ]

  -- A step of the samplers, and then a step that keeps.
  after_asking : (m m1 m' : Machine) → m1.points ≡ m.points → RunKeeps m1 m' → RunKeeps m m'
  after_asking m m1 m' e h = record {
    active = h.active ∙ ap (λ p. p.store.active) e;
    injection_points = h.injection_points ∙ ap (λ p. p.store.injection_points) e;
    registered = h.registered ∙ ap (λ p. p.store.registered) e;
    points = subst (λ p. Keeps p.store.points m'.points.store.points) e h.points;
    safe = h.safe;
  }

  module _ (self : ℕ) (function : Str) (line : ℕ) (callback : DataCallback) (point : InjectionPoint)
      (comm : Comm) (tame : IsTame body) (calm : IsTameCallback callback) where
    asked-Keeps :
        (o : Outcome Bool) (m m1 : Machine)
        → All (IsOpen m.points.store) m.points.store.active
        → get_elem? m.points.store.points self ≡ some point
        → IsCaught o
        → m1.points ≡ m.points
        → AllSafe m1.samplers.samplers
        → IsCaught (and_then o (act_on body rand self function line callback point comm) m1).0
          × RunKeeps m (and_then o (act_on body rand self function line callback point comm) m1).1
    asked-Keeps (ok b) m m1 all there caught e safe =
        let h =
          act_on-Keeps self function line callback point comm b m1 tame calm
            (subst (λ p. All (IsOpen p.store) p.store.active) (sym e) all) safe
            (subst (λ p. get_elem? p.store.points self ≡ some point) (sym e) there) in
        (h.0, after_asking m m1 _ e h.1)
    asked-Keeps (raise x) m m1 all there caught e safe = (
      (λ q. caught.0 (cc q), λ q. caught.1 (cc q)),
      after_asking m m1 m1 e record {
        active = refl;
        injection_points = refl;
        registered = refl;
        points = Keeps-refl m1.points.store.points;
        safe = safe;
      },
    )

    live-Keeps :
        (m : Machine)
        → All (IsOpen m.points.store) m.points.store.active
        → AllSafe m.samplers.samplers
        → get_elem? m.points.store.points self ≡ some point
        → point.comm ≡ some comm
        → point.skipped ≡ false
        → IsCaught (run body rand self function line callback m).0
          × RunKeeps m (run body rand self function line callback m).1
    unfolding run
    live-Keeps m all safe there has live = elim (Bool-cases (is_end point.type)) [
      | inl end_ ↦
          rw (run, there, live, has, end_)
            (asked-Keeps (ok true) m m all there (ground arith, ground arith) refl safe)
      | inr other ↦
          let h = ask_sampler-AllSafe point comm m safe in
          rw (run, there, live, has, other)
            (asked-Keeps (ask_sampler body rand point comm m).0 m
              (ask_sampler body rand point comm m).1 all there h.0 h.1 h.2)
    ]

  -- Running a point that has a communicator keeps the stack and the tables, and is caught.
  pub run-Keeps :
      (self : ℕ) (function : Str) (line : ℕ) (callback : DataCallback) (point : InjectionPoint)
      (m : Machine)
      → IsTame body
      → IsTameCallback callback
      → All (IsOpen m.points.store) m.points.store.active
      → AllSafe m.samplers.samplers
      → get_elem? m.points.store.points self ≡ some point
      → HasComm point
      → IsCaught (run body rand self function line callback m).0
        × RunKeeps m (run body rand self function line callback m).1
  unfolding run
  run-Keeps self function line callback point m tame calm all safe there (comm, has) =
      elim (Bool-cases point.skipped) [
        | inl skipped ↦
            rw (run, there, skipped)
              (
                (ground arith, ground arith),
                record {
                  active = refl;
                  injection_points = refl;
                  registered = refl;
                  points = Keeps-refl m.points.store.points;
                  safe = safe;
                },
              )
        | inr live ↦
            live-Keeps self function line callback point comm tame calm m all safe there has live
      ]
