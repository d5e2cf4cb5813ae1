-- ===== src/Workflow.antt =====
-- Workflows: jobs, their validators and their states, from injection/include/interfaces/IWorkflow.h
-- and injection/src/plugins/workflows/validators.cpp. The scheduler, the files and the clock are
-- parameters. Times are whole seconds; an exit code fits an `int`. FileStaging, which keeps a state of
-- its own, is not modelled.
pub mod Answers
pub mod Jobs
pub mod Progress
pub mod Passes
mod Examples
use vnv.Base.{
  ℕ, ◌+◌, ◌-◌, ◌*◌, ◌/◌, Bool, true, false, not, ◌&&◌, List, [], ◌∷◌, Option, none, some, Str, str,
  str_eq, if◌then◌else◌, Outcome, ok, raise, text, fault, Act, pure, ◌>>=◌, ltb, ◌==◌,
}
use vnv.Base.Int.{ℤ, pos, negsuc, sub_ℕ, ltb_ℤ, leb_ℤ}

-- ProcessResult::Status and ProcessResult
pub data ProcessStatus : Type 0 where
  initialized running success fail cancel error : ProcessStatus

pub record ProcessResult : Type 0 where
  pub status : ProcessStatus
  pub exit_code : ℤ

pub data State : Type 0 where
  error cancelled waiting_for_launch checking_dependencies staging_data launching_job running
        checking_success_requirements job_finished complete :
      State

pub record JobStatus : Type 0 where
  pub job_id : Str
  pub state : State
  pub result : ProcessResult

-- IValidator::Status
pub data Status : Type 0 where
  valid invalid wait : Status

pub data Validator : Type 0 where
  boolean : Bool → Validator
  and_or : Bool → Validator → Validator → Validator
  file : (filename req : Str) → (wait : Bool) → Validator
  job_finished : (job_name comp : Str) → ℤ → Validator

-- The constructor of BooleanValidator, which does not read its argument.
pub make_boolean : Bool → Validator
make_boolean value = boolean true

-- What a validator looks at: the files, and the jobs of the manager.
pub record World : Type 0 where
  pub file_exists : Str → Bool
  pub job_status : Str → Option JobStatus

abbrev is_empty : Str → Bool
is_empty [] = true
is_empty (c ∷ s) = false

abbrev pub answer : Bool → Status
answer true = valid
answer false = invalid

pub compare_exit : Str → ℤ → ℤ → Bool
compare_exit comp exit_status val =
    if is_empty comp
    then true
    else if str_eq comp (str "==")
    then leb_ℤ exit_status val && leb_ℤ val exit_status
    else if str_eq comp (str "<")
    then ltb_ℤ exit_status val
    else if str_eq comp (str ">")
    then ltb_ℤ val exit_status
    else if str_eq comp (str "<=")
    then leb_ℤ exit_status val
    else if str_eq comp (str ">=")
    then leb_ℤ val exit_status
    else if str_eq comp (str "!=")
    then not (leb_ℤ exit_status val && leb_ℤ val exit_status)
    else false

-- A job that is validated by itself has to be at its success requirements.
pub validate_self : JobStatus → Str → ℤ → Status
unfolding compare_exit
validate_self self comp val = elim self.state [
  | State.checking_success_requirements ↦ answer (compare_exit comp self.result.exit_code val)
  | _ ↦ invalid
]

pub validate_other : Option JobStatus → Str → ℤ → Outcome Status
unfolding compare_exit
validate_other none comp val = raise text
validate_other (some s) comp val = elim s.state [
  | State.error ↦ ok invalid
  | State.complete ↦ ok (answer (compare_exit comp s.result.exit_code val))
  | _ ↦ ok wait
]

abbrev pub combine_and : Status → Status → Status
combine_and wait b = wait
combine_and valid b = b
combine_and invalid wait = wait
combine_and invalid b = invalid

abbrev pub combine_or : Status → Status → Status
combine_or valid b = valid
combine_or invalid b = b
combine_or wait valid = valid
combine_or wait b = wait

abbrev pub combine : Bool → Outcome Status → Outcome Status → Outcome Status
combine both (raise e) b = raise e
combine both (ok a) (raise e) = raise e
combine both (ok a) (ok b) = ok (if both then combine_and a b else combine_or a b)

abbrev file_answer : Bool → Bool → Status
file_answer wait_ true = valid
file_answer wait_ false = if wait_ then wait else invalid

pub validate : World → JobStatus → Validator → Outcome Status
unfolding validate_self validate_other
validate w self (boolean val) = ok (answer val)
validate w self (and_or both one two) = combine both (validate w self one) (validate w self two)
validate w self (file filename req wait_) =
    if str_eq req (str "exists")
    then ok (file_answer wait_ (w.file_exists filename))
    else if str_eq req (str "notExists")
    then ok (file_answer wait_ (not (w.file_exists filename)))
    else raise text
validate w self (job_finished job_name comp val) =
    if is_empty job_name
    then ok (validate_self self comp val)
    else validate_other (w.job_status job_name) comp val

abbrev next_requirement : Outcome Status → Outcome Status → Outcome Status
next_requirement (raise e) rest = raise e
next_requirement (ok valid) rest = rest
next_requirement (ok s) rest = ok s

-- The loop of wasSuccessful and dependenciesMet.
pub requirements_met : World → JobStatus → List Validator → Outcome Status
unfolding validate
requirements_met w self [] = ok valid
requirements_met w self (v ∷ vs) = next_requirement (validate w self v) (requirements_met w self vs)
