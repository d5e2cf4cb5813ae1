-- ===== src/Workflow/Jobs.antt =====
-- Job of injection/include/interfaces/IWorkflow.h and the loop of JobManager::run of
-- injection/src/base/stores/WorkflowStore.cpp. The clock is the number `now`, which is not negative,
-- and neither is an expected run time.
use vnv.Base.{
  ℕ, ◌+◌, ◌-◌, ◌*◌, ◌/◌, Bool, true, false, not, List, [], ◌∷◌, Option, none, some, Str, str_key,
  if◌then◌else◌, Outcome, ok, raise, fault, Act, pure, ◌>>=◌, ◌>>◌, ltb, ◌==◌,
}
use vnv.Base.Int.{ℤ, sub_ℕ, ltb_ℤ}
use vnv.Base.Dict.{Dict, find, assign}
use vnv.Workflow.{
  ProcessStatus, ProcessResult, State, JobStatus, Status, Validator, World, requirements_met,
}

pub record Job : Type 0 where
  pub name : Str
  pub status : JobStatus
  pub dependencies : List Validator
  pub success_requirements : List Validator
  pub expected_run_time : ℕ
  pub first_checked_time : Option ℕ
  pub last_checked_time : ℕ
  pub start_time : Option ℕ
  pub end_time : Option ℕ
  pub kill_on_error : Bool
  pub before_application : Bool

-- What a scheduler does with a job, and what it knows of one at a time.
pub record Scheduler : Type 0 where
  pub run : Job → ℕ → Outcome Str
  pub status : Str → ℕ → Outcome ProcessResult

abbrev first_of : Option ℕ → ℕ → ℕ
first_of none ms = ms
first_of (some t) ms = t

-- The distance of two times.
abbrev apart : ℕ → ℕ → ℕ
apart a b = (a - b) + (b - a)

-- `(min - max) / (expectedRunTime * expectedRunTime)` is a division of integers, which rounds towards
-- zero: it is written as what is taken away from `max`.
unfoldable pub get_delay : ℕ → ℕ → ℕ → Outcome ℤ
get_delay expected first ms =
    let max = if ltb 60 expected then 60 else expected in
    let min = if ltb 10 expected then 10 else expected in
    if expected == 0
    then raise fault
    else ok (sub_ℕ max (apart ms first * apart ms first * ((max - min) / (expected * expected))))

-- `delay()`: whether more than the delay has passed since the last time that it had.
abbrev checked : ℕ → Act Job Bool
checked ms j =
    let first = first_of j.first_checked_time ms in
    let j' = record j { first_checked_time = some first } in
    elim (get_delay j.expected_run_time first ms) [
      | raise e ↦ (raise e, j')
      | ok d ↦
          if ltb_ℤ d (sub_ℕ ms j.last_checked_time)
          then (ok true, record j' { last_checked_time = ms })
          else (ok false, j')
    ]

abbrev set_state : State → Job → Job
set_state s j = record j { status = record (j.status) { state = s } }

-- The first test of progress().
abbrev start_checks : ℕ → Job → Job
start_checks now j = elim j.status.state [
  | State.waiting_for_launch ↦ record (set_state State.checking_dependencies j) {
    start_time = some now;
  }
  | _ ↦ j
]

abbrev settle_dependencies : Outcome Status → Act Job (Unit {0})
settle_dependencies (raise e) j = (raise e, j)
settle_dependencies (ok Status.valid) j = (ok tt, set_state State.launching_job j)
settle_dependencies (ok Status.invalid) j = (ok tt, set_state State.error j)
settle_dependencies (ok Status.wait) j = (ok tt, j)

abbrev check_dependencies : World → Act Job (Unit {0})
check_dependencies w j = elim j.status.state [
  | State.checking_dependencies ↦ settle_dependencies (requirements_met w j.status j.dependencies) j
  | _ ↦ (ok tt, j)
]

abbrev launched : Outcome Str → Act Job (Unit {0})
launched (raise e) j = (raise e, j)
launched (ok id) j = (ok tt, record j { status = record (j.status) { job_id = id } })

abbrev launch : Scheduler → ℕ → Act Job (Unit {0})
launch s now j = elim j.status.state [
  | State.launching_job ↦ launched (s.run j now) (set_state State.running j)
  | _ ↦ (ok tt, j)
]

abbrev after_running : ProcessStatus → State
after_running ProcessStatus.running = State.running
after_running _ = State.checking_success_requirements

abbrev polled : Outcome ProcessResult → Act Job (Unit {0})
polled (raise e) j = (raise e, j)
polled (ok r) j =
    (ok tt, record j { status = record (j.status) { result = r; state = after_running r.status } })

-- The job is asked for only where `delay()` is false.
abbrev ask : Scheduler → ℕ → Bool → Act Job (Unit {0})
ask s now true j = (ok tt, j)
ask s now false j = polled (s.status j.status.job_id now) j

abbrev poll : Scheduler → ℕ → Act Job (Unit {0})
poll s now j = elim j.status.state [
  | State.running ↦ (checked now >>= ask s now) j
  | _ ↦ (ok tt, j)
]

abbrev settle_success : Outcome Status → Act Job (Unit {0})
settle_success (raise e) j = (raise e, j)
settle_success (ok Status.valid) j = (ok tt, set_state State.job_finished j)
settle_success (ok Status.invalid) j = (ok tt, set_state State.error j)
settle_success (ok Status.wait) j = (ok tt, j)

abbrev check_success : World → Act Job (Unit {0})
check_success w j = elim j.status.state [
  | State.checking_success_requirements ↦
      settle_success (requirements_met w j.status j.success_requirements) j
  | _ ↦ (ok tt, j)
]

abbrev finish : ℕ → Act Job (Unit {0})
finish now j = elim j.status.state [
  | State.job_finished ↦ (ok tt, record (set_state State.complete j) { end_time = some now })
  | _ ↦ (ok tt, j)
]

-- The world shows the job itself as it was before: a validator that names it waits either way.
unfoldable pub progress : World → Scheduler → ℕ → Act Job (Unit {0})
progress w s now j =
    (check_dependencies w >> launch s now >> poll s now >> check_success w >> finish now)
      (start_checks now j)

-- The jobs of the manager, by their names.
abbrev pub Jobs : Type 0
Jobs = Dict Str Job

abbrev pub world_of : (Str → Bool) → Jobs → World
world_of file_exists jobs = record {
  file_exists = file_exists;
  job_status = λ n. elim (find n jobs) [ none ↦ none | some j ↦ some j.status ];
}

abbrev pub same_phase : Bool → Bool → Bool
same_phase true b = b
same_phase false b = not b

-- One turn of the loop over the jobs, with what the rest of the pass does: `complete` goes on as it
-- is, becomes false, or becomes true at an error that ends the pass.
abbrev pub judged : State → Bool → Bool → (Bool → Act Jobs Bool) → Act Jobs Bool
judged State.error kill complete rest = if kill then pure true else rest complete
judged State.complete kill complete rest = rest complete
judged _ kill complete rest = rest false

abbrev pub stored : Str → Outcome (Unit {0}) × Job → Bool → (Bool → Act Jobs Bool) → Act Jobs Bool
stored name (raise e, j) complete rest jobs = (raise e, assign name j jobs)
stored name (ok u, j) complete rest jobs =
    judged j.status.state j.kill_on_error complete rest (assign name j jobs)

module _ (file_exists : Str → Bool) (s : Scheduler) (now : ℕ) (before : Bool) where
  -- The loop over the jobs within JobManager::run; `complete` is its variable.
  unfoldable pub pass : List Str → Bool → Act Jobs Bool
  unfolding progress
  pass [] complete jobs = (ok complete, jobs)
  pass (n ∷ ns) complete jobs = elim (find n jobs) [
    | none ↦ pass ns complete jobs
    | some j ↦
        if same_phase j.before_application before
        then stored n (progress (world_of file_exists jobs) s now j) complete (pass ns) jobs
        else pass ns complete jobs
  ]
