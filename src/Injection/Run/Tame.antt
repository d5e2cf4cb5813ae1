-- ===== src/Injection/Run/Tame.antt =====
-- Plug-ins that throw nothing but what CppInjection takes: what a point then does to the engine
-- ends normally or in a std::exception.
use vnv.Base.{
  Exn, vnv_exception, standard, Act, pure, ◌>>=◌, and_then, catch_vnv, handle_vnv, ℕ, ◌≡◌, refl,
  inl, inr, ◌≢◌, Bool, true, false, List, [], ◌∷◌, Option, some, Str, Outcome, ok, raise, text,
  fault, arith, All, ◌==◌, Bool-cases, get_elem?, str, not,
}
use vnv.Base.Int.{pos, negsuc}
use vnv.Engine.{
  InjectionPointType, TestStatus, Comm, Event, Trace, test_started, test_finished, point_started,
  point_ended,
}
use vnv.Testing.{Test}
use vnv.Testing.Runs.{TestBody, emit, is_success, run_test, run_tests}
use vnv.Injection.{InjectionPoint, Store}
use vnv.Injection.Run.{
  DataCallback, open_parents, below, get_parents, run_tests_internal, run_child, run_children,
  execute, label, is_end, is_point,
}

abbrev pub IsCaught {ℓ} : {A : Type ℓ} → Outcome A → Type ℓ
IsCaught o = (o ≢ raise text) × (o ≢ raise fault)

-- The tests, and the engine at the callbacks about points and tests.
pub record IsTame (body : TestBody) : Type 0 where
  pub tests :
      (trace : Trace) (t : Test) (comm : Comm) (type : InjectionPointType) (stage_id : Str)
      → IsCaught (body.tests trace t comm type stage_id)
  pub answers : (trace : Trace) (e : Event) → IsCaught (body.answers trace e)

abbrev pub IsTameCallback : DataCallback → Type 0
IsTameCallback callback =
    (comm : Comm) (p : InjectionPoint) (trace : Trace)
    → IsCaught (callback comm p.parameters p.type p.stage_id trace)

abbrev pub HasComm : InjectionPoint → Type 0
HasComm p = (c : Comm) × (p.comm ≡ some c)

-- An entry of the stack that points to an object with a communicator.
abbrev pub IsOpen : Store → Option ℕ → Type 0
IsOpen store q =
    (i : ℕ) × (p : InjectionPoint) × (q ≡ some i) × (get_elem? store.points i ≡ some p) × HasComm p

open_parents-ok :
    (store : Store) (id : ℕ) (l : List (Option ℕ))
    → All (IsOpen store) l
    → (ps : List InjectionPoint) × (open_parents store id l ≡ ok ps) × All HasComm ps
unfolding open_parents
open_parents-ok store id [] all = ([], refl, tt)
open_parents-ok store id (q ∷ l) ((i, p, e, g, (c, h)), rest) =
    let (ps, o, all) = open_parents-ok store id l rest in
    elim (Bool-cases p.skipped) [
      | inl skipped ↦ (ps, ground arith, all)
      | inr live ↦ elim (Bool-cases (c.unique_id == id)) [
        | inl same ↦ (p ∷ ps, ground arith, ((c, h), all))
        | inr other ↦ (ps, ground arith, all)
      ]
    ]

All-below :
    (store : Store) (self : ℕ) (l : List (Option ℕ))
    → All (IsOpen store) l
    → All (IsOpen store) (below self l)
unfolding below
All-below store self [] all = tt
All-below store self (q ∷ l) all = elim (Bool-cases (is_point self q)) [
  | inl found ↦ rw found (all.1)
  | inr other ↦ rw other (All-below store self l all.1)
]

get_parents-ok :
    (store : Store) (self : ℕ) (comm : Comm) (onqueue : Bool)
    → All (IsOpen store) store.active
    → (ps : List InjectionPoint) × (get_parents store self comm onqueue ≡ ok ps) × All HasComm ps
unfolding get_parents
get_parents-ok store self comm true all =
    open_parents-ok store comm.unique_id (below self store.active)
      (All-below store self store.active all)
get_parents-ok store self comm false all = open_parents-ok store comm.unique_id store.active all

caught :
    {A : Type 0} (e : Exn) → IsCaught {A = A} (raise e) → {B : Type 0} → IsCaught {A = B} (raise e)
caught vnv_exception h = (ground arith, ground arith)
caught standard h = (ground arith, ground arith)
caught text h = absurd (h.0 refl)
caught fault h = absurd (h.1 refl)

normal : {A : Type 0} (a : A) → IsCaught (ok a)
normal a = (ground arith, ground arith)

-- What comes behind, whatever the first leaves.
then-IsCaught :
    {A B : Type 0} (r : Outcome A) (f : A → Act Trace B) (t : Trace)
    → IsCaught r
    → ((a : A) → IsCaught (f a t).0)
    → IsCaught (and_then r f t).0
then-IsCaught (ok a) f t h next = next a
then-IsCaught (raise e) f t h next = caught e h

handle-IsCaught :
    {A : Type 0} (r : Outcome A) (k : Act Trace A) (t : Trace)
    → IsCaught r
    → IsCaught (k t).0
    → IsCaught (handle_vnv r k t).0
handle-IsCaught (ok a) k t h handled = normal a
handle-IsCaught (raise vnv_exception) k t h handled = handled
handle-IsCaught (raise standard) k t h handled = (ground arith, ground arith)
handle-IsCaught (raise text) k t h handled = absurd (h.0 refl)
handle-IsCaught (raise fault) k t h handled = absurd (h.1 refl)

module _ (body : TestBody) (tame : IsTame body) where
  told :
      {B : Type 0} (e : Event) (k : Act Trace B) (t : Trace)
      → IsCaught (k (e ∷ t)).0
      → IsCaught ((emit body e >>= λ _. k) t).0
  told e k t next = then-IsCaught (body.answers t e) (λ _. k) (e ∷ t) (tame.answers t e) (λ _. next)

  run_test-IsCaught :
      (comm : Comm) (type : InjectionPointType) (stage_id : Str) (t : Test) (trace : Trace)
      → IsCaught (run_test body comm type stage_id t trace).0
  unfolding run_test
  run_test-IsCaught comm type stage_id t trace =
      let e = test_started t.config.package_name t.config.test_name false (pos t.uuid) in
      let r =
        catch_vnv (λ s. (body.tests s t comm type stage_id, s)) (pure TestStatus.failure)
          (e ∷ trace) in
      told e _ trace (
        then-IsCaught r.0 _ r.1
          (handle-IsCaught (body.tests (e ∷ trace) t comm type stage_id) (pure TestStatus.failure)
            (e ∷ trace) (tame.tests (e ∷ trace) t comm type stage_id) (normal TestStatus.failure))
          (λ s. told (test_finished (is_success s)) (pure s) r.1 (normal s)))

  run_tests-IsCaught :
      (comm : Comm) (type : InjectionPointType) (stage_id : Str) (ts : List Test) (trace : Trace)
      → IsCaught (run_tests body comm type stage_id ts trace).0
  unfolding run_tests
  run_tests-IsCaught comm type stage_id [] trace = normal tt
  run_tests-IsCaught comm type stage_id (t ∷ ts) trace =
      let r = run_test body comm type stage_id t trace in
      then-IsCaught r.0 (λ _. run_tests body comm type stage_id ts) r.1
        (run_test-IsCaught comm type stage_id t trace)
        (λ _. run_tests-IsCaught comm type stage_id ts r.1)

  run_tests_internal-IsCaught :
      (point : InjectionPoint) (comm : Comm) (callback : DataCallback) (trace : Trace)
      → IsTameCallback callback
      → IsCaught (run_tests_internal body point comm callback trace).0
  unfolding run_tests_internal
  run_tests_internal-IsCaught point comm callback trace calm =
      let e = test_started point.package_name (str "__internal__") true (negsuc 0) in
      let s = e ∷ trace in
      let o = callback comm point.parameters point.type point.stage_id s in
      let r = handle_vnv o (pure tt) s in
      handle-IsCaught _ (pure tt) _
        (told e _ trace (
          then-IsCaught r.0 _ r.1 (handle-IsCaught o (pure tt) s (calm comm point s) (normal tt))
            (λ _. told (test_finished true) _ r.1 (
              run_tests-IsCaught comm point.type (label body point) point.tests
                (test_finished true ∷ r.1)))))
        (normal tt)

  run_child-IsCaught :
      (function : Str) (line : ℕ) (child p : InjectionPoint) (trace : Trace)
      → HasComm p
      → IsCaught (run_child body function line child p trace).0
  unfolding run_child
  run_child-IsCaught function line child p trace (c, e) = elim (Bool-cases p.skipped) [
    | inl skipped ↦ rw (run_child, skipped) (normal tt)
    | inr live ↦
        let o =
          point_started c.unique_id p.package_name p.name InjectionPointType.child_iter
            child.stage_id function line in
        let r =
          run_tests body c InjectionPointType.child_iter (label body child) p.tests (o ∷ trace) in
        rw (run_child, live, e)
          (told o _ trace (
            then-IsCaught r.0 _ r.1
              (run_tests-IsCaught c InjectionPointType.child_iter (label body child) p.tests
                (o ∷ trace))
              (λ _. tame.answers r.1 (point_ended p.name p.type p.stage_id))))
  ]

  run_children-IsCaught :
      (function : Str) (line : ℕ) (child : InjectionPoint) (ps : List InjectionPoint)
      (trace : Trace)
      → All HasComm ps
      → IsCaught (run_children body function line child ps trace).0
  unfolding run_children
  run_children-IsCaught function line child [] trace all = normal tt
  run_children-IsCaught function line child (p ∷ ps) trace (has, all) =
      let r = run_child body function line child p trace in
      then-IsCaught r.0 (λ _. run_children body function line child ps) r.1
        (run_child-IsCaught function line child p trace has)
        (λ _. run_children-IsCaught function line child ps r.1 all)

  -- If every test, the callback, and the engine where it is told of points and tests, throw
  -- nothing but std::exception, and every entry of the stack is an object that has a
  -- communicator, then running a point, its tests and the tests of its parents ends normally or
  -- in a std::exception.
  pub execute-IsCaught :
      (function : Str) (line : ℕ) (store : Store) (self : ℕ) (point : InjectionPoint) (comm : Comm)
      (callback : DataCallback) (trace : Trace)
      → IsTameCallback callback
      → All (IsOpen store) store.active
      → IsCaught (execute body function line store self point comm callback trace).0
  unfolding execute
  execute-IsCaught function line store self point comm callback trace calm all =
      let (ps, e, parents) = get_parents-ok store self comm (not (is_end point.type)) all in
      let o =
        point_started comm.unique_id point.package_name point.name point.type point.stage_id
          function line in
      let r = run_tests_internal body point comm callback (o ∷ trace) in
      let ended = point_ended point.name point.type point.stage_id in
      told o _ trace (
        then-IsCaught r.0 _ r.1 (run_tests_internal-IsCaught point comm callback (o ∷ trace) calm)
          (λ _.
            told ended _ r.1
              (rw e (run_children-IsCaught function line point ps (ended ∷ r.1) parents))))
