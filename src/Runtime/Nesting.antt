-- ===== src/Runtime/Nesting.antt =====
-- The calls that a program of nested loops makes, and what they leave behind.
use vnv.Base.{
  ℕ, ◌≡◌, refl, sym, ◌∙◌, ap, subst, Bool, true, Str, Outcome, ok, Act, pure, ◌>>◌, All, map,
}
use vnv.Base.Dict.{Dict}
use vnv.Engine.{Comm}
use vnv.Injection.Run.{DataCallback}
use vnv.Injection.Run.Tame.{IsTame, IsTameCallback, IsOpen}
use vnv.Testing.{TestConfig}
use vnv.Actions.Nesting.{IsCalm, pop, IsReady, All-push, map-pop-push}
use vnv.Runtime.{Plugins, RunTime, Site, begin_loop, iter_loop, end_loop}
use vnv.Runtime.Steps.{IsSound, Stepped, Stepped-refl, Stepped-trans, Stepped-IsSound, Opened-Keeps}
use vnv.Runtime.Beginning.{begin_steps}
use vnv.Runtime.Fetching.{iter_steps, end_steps}

-- A program: loops, which may hold loops and iterations of any point, one after another. The End of
-- a loop has the package and the name of its Begin. The index says whether it stands in a loop.
pub data Program : Bool → Type 0 where
  finish : {b : Bool} → Program b
  iter : Site → Str → DataCallback → Program true → Program true
  loop :
      {b : Bool}
      → Comm
      → Site
      → (signature : Str) → Dict Str (Str × ℕ)
      → DataCallback
      → (end_function : Str) → (end_line : ℕ) → DataCallback
      → Program true
      → Program b
      → Program b

abbrev end_site : Site → Str → ℕ → Site
end_site site function line = record site { function = function; line = line }

unfoldable pub run_program : {b : Bool} → Plugins → Program b → Act RunTime (Unit {0})
run_program p finish = pure tt
run_program p (iter site stage_id callback rest) =
    iter_loop p site stage_id callback >> run_program p rest
run_program p (loop comm site signature args callback function line end_callback inner rest) =
    begin_loop p comm site signature args callback
    >> (run_program p inner
        >> (end_loop p (end_site site function line) end_callback >> run_program p rest))

-- Its callbacks throw nothing but what CppInjection takes.
unfoldable pub IsTameProgram : {b : Bool} → Program b → Type 0
IsTameProgram finish = Unit
IsTameProgram (iter site stage_id callback rest) = IsTameCallback callback × IsTameProgram rest
IsTameProgram (loop comm site signature args callback function line end_callback inner rest) =
    IsTameCallback callback × IsTameCallback end_callback × IsTameProgram inner × IsTameProgram rest

-- A run that ends normally in `r'`, with the actions and the stack of open points that it had.
abbrev pub Restores : Act RunTime (Unit {0}) → RunTime → Type 0
Restores m r =
    (r' : RunTime) × (m r ≡ (ok tt, r'))
    × Stepped r r'
    × (r'.actions ≡ r.actions)
    × (r'.machine.points.store.active ≡ r.machine.points.store.active)
    × All (IsOpen r'.machine.points.store) r'.machine.points.store.active

-- A step that ends normally, and then a program.
and_so :
    (m k : Act RunTime (Unit {0})) (r r1 : RunTime) (o : Outcome (Unit {0}) × RunTime)
    → m r ≡ (ok tt, r1)
    → k r1 ≡ o
    → (m >> k) r ≡ o
and_so m k r r1 o e f = rw e f

module _ (p : Plugins) (tame : IsTame p.test_body) (calm : IsCalm p.action_body)
    (willing : (c : TestConfig) → p.supplied.make c ≡ ok tt) where
  -- A program of nested loops whose Ends have the package and the name of their Begins ends
  -- normally at its injection points: no exception reaches it, the stack of open points is as it
  -- was, every action has the communicators that it had, the configuration and the registrations
  -- stay, and no object is lost or renamed. The tests are on, every configured point is
  -- registered under one signature, no maker of a test throws, no sampler divides by zero, the
  -- open points are objects with a communicator. The tests, the callbacks, and the engine where
  -- it is told of points and tests, throw nothing but std::exception. The actions, and the
  -- engine where it is told of actions, throw nothing; the actions implement all three stages of
  -- injection points or none, and one that takes part has a communicator where the program
  -- stands in a loop.
  pub run_program-Restores :
      {b : Bool} (q : Program b) (r : RunTime)
      → IsTameProgram q
      → IsSound r
      → All (IsReady b) r.actions
      → Restores (run_program p q) r
  unfolding run_program IsTameProgram
  run_program-Restores finish r quiet h ready = (r, refl, Stepped-refl r h, refl, refl, h.live)
  run_program-Restores (iter site stage_id callback rest) r (quiet, quiets) h ready =
      let (r1, e1, st1, a1, ev1, l1) =
        iter_steps p tame calm site callback quiet r h ready stage_id in
      let (r2, e2, st2, a2, ev2, l2) =
        run_program-Restores rest r1 quiets (Stepped-IsSound h st1 l1)
          (subst (All (IsReady true)) (sym a1) ready) in
      (
        r2,
        and_so (iter_loop p site stage_id callback) (run_program p rest) r r1 (ok tt, r2) e1 e2,
        Stepped-trans st1 st2,
        a2 ∙ a1,
        ev2 ∙ ev1,
        l2,
      )
  run_program-Restores {b}
        (loop comm site signature args callback function line end_callback inner rest) r
        (quiet, end_quiet, inner_quiet, rest_quiet) h ready =
      let stop = end_site site function line in
      let tail = end_loop p stop end_callback >> run_program p rest in
      let (r1, e1, st1, a1, op1, l1) =
        begin_steps p tame calm willing comm site signature args callback quiet r h b ready in
      let h1 = Stepped-IsSound h st1 l1 in
      let ready1 = subst (All (IsReady true)) (sym a1) (All-push b comm r.actions ready) in
      let (r2, e2, st2, a2, ev2, l2) = run_program-Restores inner r1 inner_quiet h1 ready1 in
      let h2 = Stepped-IsSound h1 st2 l2 in
      let op2 =
        Opened-Keeps site.package_name site.id r.machine.points.store.active r1.machine.points.store
          r2.machine.points.store st2.injection_points ev2 st2.points op1 in
      let (r3, e3, st3, a3, ev3, l3) =
        end_steps p tame calm stop end_callback end_quiet r2 h2
          (subst (All (IsReady true)) (sym a2) ready1) r.machine.points.store.active op2 in
      let same : r3.actions ≡ r.actions =
        a3 ∙ ap (map pop) (a2 ∙ a1) ∙ map-pop-push b comm r.actions ready in
      let (r4, e4, st4, a4, ev4, l4) =
        run_program-Restores rest r3 rest_quiet (Stepped-IsSound h2 st3 l3)
          (subst (All (IsReady b)) (sym same) ready) in
      (
        r4,
        and_so (begin_loop p comm site signature args callback) (run_program p inner >> tail) r r1
            (ok tt, r4) e1
            (and_so (run_program p inner) tail r1 r2 (ok tt, r4) e2
              (and_so (end_loop p stop end_callback) (run_program p rest) r2 r3 (ok tt, r4) e3 e4)),
        Stepped-trans st1 (Stepped-trans st2 (Stepped-trans st3 st4)),
        a4 ∙ same,
        ev4 ∙ ev3,
        l4,
      )
