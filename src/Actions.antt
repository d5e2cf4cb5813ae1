-- ===== src/Actions.antt =====
-- Actions: injection/src/base/stores/ActionStore.cpp and injection/include/interfaces/IAction.h.
-- An action keeps a stack of communicators. What it does at a stage is a parameter, which may look
-- at everything that the engine was told and may throw, and so is what the engine answers.
pub mod Nesting
mod Examples
use vnv.Base.{
  ℕ, Bool, true, false, List, [], ◌∷◌, ◌++◌, Option, none, some, Str, if◌then◌else◌, Outcome, ok,
  raise, fault, text, standard, vnv_exception, Act, pure, throw, ◌>>=◌, ◌>>◌, catch_standard,
  handle_standard, str_key,
}
use vnv.Base.Dict.{Dict, find, assign, contains}
use vnv.Engine.{Comm, ActionStage, Event, action_started, action_ended, Trace}
use vnv.Json.{Json}
use vnv.Testing.{key}

pub record Action : Type 0 where
  pub package_name : Str
  pub name : Str
  pub implements_start : Bool
  pub implements_iter : Bool
  pub implements_end : Bool
  pub comm_stack : List Comm

-- What an action does at a stage, and how the engine answers the callbacks about actions: it may
-- throw too, as a stream does that cannot be written to.
pub record ActionBody : Type 0 where
  pub acts : Trace → Action → ActionStage → Outcome (Unit {0})
  pub answers : Trace → Event → Outcome (Unit {0})

-- implements_injection_point(yes)
pub implements_injection_point : Bool → Action → Action
implements_injection_point b a = record a {
  implements_start = b;
  implements_iter = b;
  implements_end = b;
}

-- One action and the engine.
abbrev pub Doing : Type 0 → Type 0
Doing A = Act (Action × Trace) A

abbrev set_comm : Comm → Doing (Unit {0})
set_comm c (a, trace) = (ok tt, (record a { comm_stack = c ∷ a.comm_stack }, trace))

-- `pop` and `top` of an empty stack are undefined.
abbrev pop_stack : List Comm → Doing (Unit {0})
pop_stack [] (a, trace) = (raise fault, (a, trace))
pop_stack (c ∷ cs) (a, trace) = (ok tt, (record a { comm_stack = cs }, trace))

abbrev pop_comm : Doing (Unit {0})
pop_comm s = pop_stack s.0.comm_stack s

abbrev top_of : List Comm → Outcome Comm
top_of [] = raise fault
top_of (c ∷ cs) = ok c

abbrev get_comm : Doing Comm
get_comm s = (top_of s.0.comm_stack, s)

module _ (body : ActionBody) where
  abbrev call : ActionStage → Doing (Unit {0})
  call stage (a, trace) = (body.acts trace a stage, (a, trace))

  abbrev tell : Event → Doing (Unit {0})
  tell e (a, trace) = (body.answers trace e, (a, e ∷ trace))

  abbrev start_event : Comm → ActionStage → Doing (Unit {0})
  start_event comm stage s = tell (action_started comm.unique_id s.0.package_name s.0.name stage) s

  -- Initialize and finalize: the whole life of the communicator.
  unfoldable pub whole_stage : ActionStage → Comm → Doing (Unit {0})
  whole_stage stage world = catch_standard bracketed (pure tt)
    where
      bracketed : Doing (Unit {0})
      bracketed = do
        start_event world stage
        set_comm world
        call stage
        pop_comm
        tell (action_ended stage)

  unfoldable pub start_stage : Comm → Doing (Unit {0})
  start_stage comm = catch_standard bracketed (pure tt)
    where
      bracketed : Doing (Unit {0})
      bracketed = do
        start_event comm ActionStage.start
        set_comm comm
        call ActionStage.start
        tell (action_ended ActionStage.start)

  unfoldable pub iter_stage : Doing (Unit {0})
  iter_stage = catch_standard bracketed (pure tt)
    where
      bracketed : Doing (Unit {0})
      bracketed = do
        comm ← get_comm
        start_event comm ActionStage.iter
        call ActionStage.iter
        tell (action_ended ActionStage.iter)

  unfoldable pub end_stage : Doing (Unit {0})
  end_stage = catch_standard bracketed (pure tt)
    where
      bracketed : Doing (Unit {0})
      bracketed = do
        comm ← get_comm
        start_event comm ActionStage.end
        call ActionStage.end
        pop_comm
        tell (action_ended ActionStage.end)

-- The actions, in the order in which they were added, and the engine.
abbrev pub Actions : Type 0
Actions = List Action × Trace

abbrev when : (Action → Bool) → Doing (Unit {0}) → Doing (Unit {0})
when test m s = if test s.0 then m s else (ok tt, s)

-- The loop over the actions. An exception that no handler takes ends it.
abbrev cons_action : Action → Outcome (Unit {0}) × Actions → Outcome (Unit {0}) × Actions
cons_action a (r, (actions, trace)) = (r, (a ∷ actions, trace))

abbrev go_on :
    (Trace → Outcome (Unit {0}) × Actions)
    → List Action
    → Outcome (Unit {0}) × (Action × Trace)
    → Outcome (Unit {0}) × Actions
go_on rest actions (ok u, (a, trace)) = cons_action a (rest trace)
go_on rest actions (raise e, (a, trace)) = (raise e, (a ∷ actions, trace))

unfoldable pub for_each : Doing (Unit {0}) → List Action → Trace → Outcome (Unit {0}) × Actions
for_each m [] trace = (ok tt, ([], trace))
for_each m (a ∷ as') trace = go_on (for_each m as') as' (m (a, trace))

module _ (body : ActionBody) where
  abbrev pub initialize : Comm → Act Actions (Unit {0})
  initialize world (actions, trace) =
      for_each (whole_stage body ActionStage.init world) actions trace

  abbrev pub injection_point_start : Comm → Act Actions (Unit {0})
  injection_point_start comm (actions, trace) =
      for_each (when (λ a. a.implements_start) (start_stage body comm)) actions trace

  abbrev pub injection_point_iter : Act Actions (Unit {0})
  injection_point_iter (actions, trace) =
      for_each (when (λ a. a.implements_iter) (iter_stage body)) actions trace

  abbrev pub injection_point_end : Act Actions (Unit {0})
  injection_point_end (actions, trace) =
      for_each (when (λ a. a.implements_end) (end_stage body)) actions trace

  abbrev pub finalize : Comm → Act Actions (Unit {0})
  finalize world (actions, trace) =
      for_each (whole_stage body ActionStage.final world) actions trace

-- The table of actions: how to make one, and its schema.
pub record ActionFactory : Type 0 where
  pub schema : Json
  pub make : Json → Outcome Action

pub register_action : Str → Str → ActionFactory → Dict Str ActionFactory → Dict Str ActionFactory
register_action package_name name f factory = assign (key package_name name) f factory

pub registered_action : Str → Str → Dict Str ActionFactory → Bool
registered_action package_name name factory = contains (key package_name name) factory

abbrev catch_all : Outcome Action → List Action → Outcome (Unit {0}) × List Action
catch_all (ok a) actions = (ok tt, actions ++ a ∷ [])
catch_all (raise fault) actions = (raise fault, actions)
catch_all (raise e) actions = (raise text, actions)

-- setNameAndPackageAndEngine
abbrev named : Str → Str → Outcome Action → Outcome Action
named package_name name (ok a) = ok (record a { package_name = package_name; name = name })
named package_name name (raise e) = raise e

-- An action of that name must be registered and its schema must accept the configuration;
-- otherwise a text is thrown. (What the maker throws as text has the same effect.)
pub add_action :
    (Json → Json → Bool) → Dict Str ActionFactory → Str → Str → Json → Act (List Action) (Unit {0})
add_action validates factory package_name name config actions =
    elim (find (key package_name name) factory) [
      | none ↦ (raise text, actions)
      | some f ↦
          if validates f.schema config
          then catch_all (named package_name name (f.make config)) actions
          else (raise text, actions)
    ]
