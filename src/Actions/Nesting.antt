-- ===== src/Actions/Nesting.antt =====
-- The communicator stacks of the actions over the loops of a program.
use vnv.Base.{
  ◌≡◌, refl, sym, subst, ap, ◌∙◌, ◌⊎◌, inl, inr, Bool, true, false, List, [], ◌∷◌, map, All,
  if◌then◌else◌, ok, Act, pure, ◌>>◌, arith, Bool-cases,
}
use vnv.Engine.{Comm, ActionStage, Event, Trace, action_started, action_ended}
use vnv.Actions.{
  Action, ActionBody, Actions, Doing, when, start_stage, iter_stage, end_stage, for_each,
  injection_point_start, injection_point_iter, injection_point_end,
}

-- A program seen by the actions: loops, iterations within a loop, one after another. The index says
-- whether the program stands in a loop.
pub data Program : Bool → Type 0 where
  finish : {b : Bool} → Program b
  iter : Program true → Program true
  loop : {b : Bool} → Comm → Program true → Program b → Program b

module _ (body : ActionBody) where
  pub run_program : {b : Bool} → Program b → Act Actions (Unit {0})
  run_program finish = pure tt
  run_program (iter rest) = injection_point_iter body >> run_program rest
  run_program (loop comm inner rest) =
      injection_point_start body comm
      >> (run_program inner >> (injection_point_end body >> run_program rest))

-- The actions throw nothing, and neither does the engine at the callbacks about actions.
pub record IsCalm (body : ActionBody) : Type 0 where
  pub acted : (t : Trace) (a : Action) (stage : ActionStage) → body.acts t a stage ≡ ok tt
  pub answered : (t : Trace) (e : Event) → body.answers t e ≡ ok tt

-- As implements_injection_point leaves it.
pub record IsUniform (a : Action) : Type 0 where
  pub start_end : a.implements_end ≡ a.implements_start
  pub start_iter : a.implements_iter ≡ a.implements_start

abbrev pub push : Comm → Action → Action
push c a = if a.implements_start then record a { comm_stack = c ∷ a.comm_stack } else a

abbrev pub tail_of : List Comm → List Comm
tail_of [] = []
tail_of (c ∷ cs) = cs

abbrev pub pop : Action → Action
pop a = if a.implements_end then record a { comm_stack = tail_of a.comm_stack } else a

-- An action that takes part has a communicator.
abbrev HasComm : Action → Type 0
HasComm a = (a.implements_start ≡ false) ⊎ ((c : Comm) × (cs : List Comm) × (a.comm_stack ≡ c ∷ cs))

abbrev pub IsReady : Bool → Action → Type 0
IsReady true a = IsUniform a × HasComm a
IsReady false a = IsUniform a

for_each-map :
    (P : Action → Type 0) (m : Doing (Unit {0})) (f : Action → Action)
    → ((a : Action) (t : Trace) → P a → ((m (a, t)).0 ≡ ok tt) × ((m (a, t)).1.0 ≡ f a))
    → (actions : List Action) (t : Trace) → All P actions
    → ((for_each m actions t).0 ≡ ok tt) × ((for_each m actions t).1.0 ≡ map f actions)
unfolding for_each
for_each-map P m f h [] t all = (refl, refl)
for_each-map P m f h (a ∷ actions) t all =
    ground (arith, h a t all.0, for_each-map P m f h actions (m (a, t)).1.1 all.1)

push-HasComm : (c : Comm) (a : Action) → HasComm (push c a)
push-HasComm c a = elim (Bool-cases a.implements_start) [
  | inl e ↦ inr (c, a.comm_stack, ground arith)
  | inr e ↦ inl (ground arith)
]

push-IsUniform : (c : Comm) (a : Action) → IsUniform a → IsUniform (push c a)
push-IsUniform c a u = ground arith

pub All-push :
    (b : Bool) (c : Comm) (l : List Action)
    → All (IsReady b) l
    → All (IsReady true) (map (push c) l)
All-push b c [] h = tt
All-push true c (a ∷ l) h = ((push-IsUniform c a h.0.0, push-HasComm c a), All-push true c l h.1)
All-push false c (a ∷ l) h = ((push-IsUniform c a h.0, push-HasComm c a), All-push false c l h.1)

pub map-pop-push :
    (b : Bool) (c : Comm) (l : List Action) → All (IsReady b) l → map pop (map (push c) l) ≡ l
map-pop-push b c [] h = refl
map-pop-push true c (a ∷ l) h = ground (arith, map-pop-push true c l h.1)
map-pop-push false c (a ∷ l) h = ground (arith, map-pop-push false c l h.1)

-- A step that leaves the actions `l'`, and then a program that leaves `l` from there.
after :
    (m k : Act Actions (Unit {0})) (s : Actions) (l l' : List Action)
    → ((m s).0 ≡ ok tt) × ((m s).1.0 ≡ l')
    → ((t : Trace) → ((k (l', t)).0 ≡ ok tt) × ((k (l', t)).1.0 ≡ l))
    → (((m >> k) s).0 ≡ ok tt) × (((m >> k) s).1.0 ≡ l)
after m k s l l' h next = rw (h.0) (
    subst (λ x. ((k (x, (m s).1.1)).0 ≡ ok tt) × ((k (x, (m s).1.1)).1.0 ≡ l)) (sym h.1)
      (next (m s).1.1))

map_id : (l : List Action) → map (λ a. a) l ≡ l
map_id [] = refl
map_id (a ∷ l) = ap (λ k. a ∷ k) (map_id l)

module _ (body : ActionBody) (calm : IsCalm body) where
  start_one :
      (c : Comm) (a : Action) (t : Trace)
      → ((when (λ a. a.implements_start) (start_stage body c) (a, t)).0 ≡ ok tt)
        × ((when (λ a. a.implements_start) (start_stage body c) (a, t)).1.0 ≡ push c a)
  unfolding start_stage
  start_one c a t = ground (
    arith,
    calm.answered t (action_started c.unique_id a.package_name a.name ActionStage.start),
    calm.answered (action_started c.unique_id a.package_name a.name ActionStage.start ∷ t)
        (action_ended ActionStage.start),
    calm.acted (action_started c.unique_id a.package_name a.name ActionStage.start ∷ t)
        (record a { comm_stack = c ∷ a.comm_stack }) ActionStage.start,
  )

  iter_one :
      (a : Action) (t : Trace)
      → IsReady true a
      → ((when (λ a. a.implements_iter) (iter_stage body) (a, t)).0 ≡ ok tt)
        × ((when (λ a. a.implements_iter) (iter_stage body) (a, t)).1.0 ≡ a)
  unfolding iter_stage
  iter_one a t (u, inl out) = ground arith
  iter_one a t (u, inr (c, cs, e)) = ground (
    arith,
    calm.answered t (action_started c.unique_id a.package_name a.name ActionStage.iter),
    calm.answered (action_started c.unique_id a.package_name a.name ActionStage.iter ∷ t)
        (action_ended ActionStage.iter),
    calm.acted (action_started c.unique_id a.package_name a.name ActionStage.iter ∷ t) a
        ActionStage.iter,
  )

  end_one :
      (a : Action) (t : Trace)
      → IsReady true a
      → ((when (λ a. a.implements_end) (end_stage body) (a, t)).0 ≡ ok tt)
        × ((when (λ a. a.implements_end) (end_stage body) (a, t)).1.0 ≡ pop a)
  unfolding end_stage
  end_one a t (u, inl out) = ground arith
  end_one a t (u, inr (c, cs, e)) = ground (
    arith,
    calm.answered t (action_started c.unique_id a.package_name a.name ActionStage.end),
    calm.answered (action_started c.unique_id a.package_name a.name ActionStage.end ∷ t)
        (action_ended ActionStage.end),
    calm.acted (action_started c.unique_id a.package_name a.name ActionStage.end ∷ t) a
        ActionStage.end,
  )

  -- What a stage does to the actions.
  pub start-map :
      (b : Bool) (c : Comm) (actions : List Action) (t : Trace)
      → All (IsReady b) actions
      → ((injection_point_start body c (actions, t)).0 ≡ ok tt)
        × ((injection_point_start body c (actions, t)).1.0 ≡ map (push c) actions)
  start-map b c actions t all =
      for_each-map (IsReady b) (when (λ a. a.implements_start) (start_stage body c)) (push c)
        (λ a t' _. start_one c a t') actions t all

  pub iter_keeps :
      (actions : List Action) (t : Trace)
      → All (IsReady true) actions
      → ((injection_point_iter body (actions, t)).0 ≡ ok tt)
        × ((injection_point_iter body (actions, t)).1.0 ≡ actions)
  iter_keeps actions t all =
      let h =
        for_each-map (IsReady true) (when (λ a. a.implements_iter) (iter_stage body)) (λ a. a)
          iter_one actions t all in
      (h.0, h.1 ∙ map_id actions)

  pub end-map :
      (actions : List Action) (t : Trace)
      → All (IsReady true) actions
      → ((injection_point_end body (actions, t)).0 ≡ ok tt)
        × ((injection_point_end body (actions, t)).1.0 ≡ map pop actions)
  end-map actions t all =
      for_each-map (IsReady true) (when (λ a. a.implements_end) (end_stage body)) pop end_one
        actions t all

  -- If no action throws, and the engine throws nothing where it is told of actions, and each
  -- action implements all three stages of injection points or none, and one that takes part has
  -- a communicator where the program stands in a loop, then a program of nested loops and
  -- iterations throws nothing and leaves every action with the stack of communicators that it
  -- had.
  pub run_program_restores :
      {b : Bool} (p : Program b) (actions : List Action) (t : Trace)
      → All (IsReady b) actions
      → ((run_program body p (actions, t)).0 ≡ ok tt)
        × ((run_program body p (actions, t)).1.0 ≡ actions)
  unfolding run_program
  run_program_restores finish actions t all = (refl, refl)
  run_program_restores (iter rest) actions t all =
      after (injection_point_iter body) (run_program body rest) (actions, t) actions actions
        (iter_keeps actions t all) (λ t'. run_program_restores rest actions t' all)
  run_program_restores {b} (loop comm inner rest) actions t all =
      let pushed = map (push comm) actions in
      let open_ = All-push b comm actions all in
      after (injection_point_start body comm) _ (actions, t) actions pushed
        (start-map b comm actions t all)
        λ t1.
          after (run_program body inner) _ (pushed, t1) actions pushed
            (run_program_restores inner pushed t1 open_)
            λ t2.
              after (injection_point_end body) (run_program body rest) (pushed, t2) actions actions
                (let h = end-map pushed t2 open_ in (h.0, h.1 ∙ map-pop-push b comm actions all))
                (λ t3. run_program_restores rest actions t3 all)
