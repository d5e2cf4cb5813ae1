-- ===== src/Workflow/Examples.antt =====
-- Jobs at work.
use vnv.Base.{
  ◌≡◌, ◌≤◌, refl, ◌≢◌, ◌⊎◌, inl, inr, true, false, [], ◌∷◌, none, some, str, str_key, ok, arith,
  All,
}
use vnv.Base.Int.{pos}
use vnv.Base.Dict.{find, assign}
use vnv.Workflow.{
  World, JobStatus, State, Status, Validator, ProcessStatus, validate, requirements_met,
  make_boolean,
}
use vnv.Workflow.Answers.{validate_stays}
use vnv.Workflow.Jobs.{Job, Jobs, Scheduler, get_delay, progress, pass}
use vnv.Workflow.Progress.{
  get_delay_constant, progress_over, progress_launches, progress_forward, progress_completes, rank,
}
use vnv.Workflow.Passes.{pass_ends, HasKilled, IsDone}

abbrev status : State → JobStatus
status state = record {
  job_id = str "__";
  state = state;
  result = record { status = ProcessStatus.initialized; exit_code = pos 0 };
}

abbrev job : State → Job
job state = record {
  name = str "a";
  status = status state;
  dependencies = [];
  success_requirements = Validator.job_finished [] (str "==") (pos 0) ∷ [];
  expected_run_time = 300;
  first_checked_time = none;
  last_checked_time = 100;
  start_time = none;
  end_time = none;
  kill_on_error = true;
  before_application = true;
}

-- Every job succeeds at once.
abbrev scheduler : Scheduler
scheduler = record {
  run = λ j now. ok (str "1");
  status = λ id now. ok (record { status = ProcessStatus.success; exit_code = pos 0 });
}

abbrev world : World
world = record { file_exists = λ f. false; job_status = λ n. some (status State.complete) }

abbrev waiting : World
waiting = record world { job_status = λ n. some (status State.running) }

-- The Boolean validator does not read its value.
boolean_ignored : validate world (status State.running) (make_boolean false) ≡ ok Status.valid
unfolding validate make_boolean
boolean_ignored = refl

one_step :
    (progress world scheduler 120 (job State.waiting_for_launch)).1.status.state ≡ State.complete
unfolding progress requirements_met validate get_delay
one_step = refl

abbrev either : Validator
either =
    Validator.and_or false (Validator.boolean true) (Validator.job_finished (str "b") [] (pos 0))

validate_stays_example :
    (a' : Status) × (validate world (status State.running) either ≡ ok a')
    × (Status.valid ≢ Status.wait → a' ≡ Status.valid)
unfolding validate
validate_stays_example =
    validate_stays waiting world (status State.running) either Status.valid
      (record {
        files = λ f. refl;
        jobs = λ n s e. (
          status State.complete,
          refl,
          λ over. elim over [ inl x ↦ ground arith | inr x ↦ ground arith ],
        );
      })
      refl

get_delay_constant_sample : get_delay 300 1000 1500 ≡ ok (pos 60)
get_delay_constant_sample = get_delay_constant 300 1000 1500 (omega arith)

progress_over_sample : progress world scheduler 120 (job State.error) ≡ (ok tt, job State.error)
progress_over_sample = progress_over world scheduler 120 (job State.error) (inr (inl refl))

progress_launches_example :
    requirements_met world (status State.checking_dependencies) [] ≡ ok Status.valid
unfolding progress requirements_met validate get_delay
progress_launches_example =
    progress_launches world scheduler 120 (job State.waiting_for_launch) refl (λ e. cc) (λ e. cc)

progress_forward_example :
    rank State.waiting_for_launch
    ≤ rank (progress world scheduler 120 (job State.waiting_for_launch)).1.status.state
progress_forward_example = progress_forward world scheduler 120 (job State.waiting_for_launch)

progress_completes_example :
    requirements_met world
      (record ((progress world scheduler 120 (job State.running)).1.status) {
        state = State.checking_success_requirements;
      })
      (job State.running).success_requirements
    ≡ ok Status.valid
unfolding progress requirements_met validate get_delay
progress_completes_example =
    progress_completes world scheduler 120 (job State.running) (λ e. cc) (λ e. cc) refl

abbrev jobs : Jobs
jobs = (str "a", job State.waiting_for_launch) ∷ []

abbrev after : Jobs
after = (pass (λ f. false) scheduler 120 true (str "a" ∷ []) true jobs).1

pass_ends_example : HasKilled after ⊎ ((true ≡ true) × All (IsDone true after) (str "a" ∷ []))
unfolding pass progress requirements_met validate get_delay find assign
pass_ends_example = pass_ends (λ f. false) scheduler 120 true (str "a" ∷ []) true jobs after refl
