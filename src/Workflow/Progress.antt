-- ===== src/Workflow/Progress.antt =====
-- What progress does to the state of a job.
use vnv.Base.{ℕ, ◌≡◌, ◌<◌, ◌≤◌, ◌≢◌, ◌⊎◌, inl, inr, ok, arith, if◌then◌else◌, ltb, ◌-◌, ◌*◌, ◌/◌}
use native.Mathlib.Nat.{div-eq_of_lt, mul-le-mul_left}
use vnv.Base.Int.{pos}
use vnv.Workflow.{World, State, Status, requirements_met}
use vnv.Workflow.Jobs.{Job, Scheduler, get_delay, progress}

quotient_zero : (a e : ℕ) → a < e → a / (e * e) ≡ 0
quotient_zero a e h = div-eq_of_lt (omega (arith, mul-le-mul_left e (positive h)))
  where
    positive : a < e → 1 ≤ e
    positive h = omega arith

-- For a positive expected run time the delay is that time or 60, whichever is less, at any time:
-- the quotient of integers is zero.
pub get_delay_constant :
    (expected first ms : ℕ)
    → 0 < expected
    → get_delay expected first ms ≡ ok (pos (if ltb 60 expected then 60 else expected))
unfolding get_delay
get_delay_constant expected first ms h = ground (
  arith,
  quotient_zero
      ((if ltb 60 expected then 60 else expected) - (if ltb 10 expected then 10 else expected))
      expected (ground arith),
)

-- A job that is complete, cancelled or in error is left as it is.
pub progress_over :
    (w : World) (s : Scheduler) (now : ℕ) (j : Job)
    → (j.status.state ≡ State.complete)
      ⊎ (j.status.state ≡ State.error)
      ⊎ (j.status.state ≡ State.cancelled)
    → progress w s now j ≡ (ok tt, j)
unfolding progress
progress_over w s now j (inl h) = ground arith
progress_over w s now j (inr (inl h)) = ground arith
progress_over w s now j (inr (inr h)) = ground arith

-- A job that waited for its launch is past its dependencies after progress, and not in error, only
-- where its dependencies are valid.
pub progress_launches :
    (w : World) (s : Scheduler) (now : ℕ) (j : Job)
    → j.status.state ≡ State.waiting_for_launch
    → (progress w s now j).1.status.state ≢ State.checking_dependencies
    → (progress w s now j).1.status.state ≢ State.error
    → requirements_met w (record (j.status) { state = State.checking_dependencies }) j.dependencies
      ≡ ok Status.valid
unfolding progress
progress_launches w s now j h a b = ground arith

abbrev pub rank : State → ℕ
rank State.waiting_for_launch = 0
rank State.checking_dependencies = 1
rank State.staging_data = 2
rank State.launching_job = 3
rank State.running = 4
rank State.checking_success_requirements = 5
rank State.job_finished = 6
rank _ = 7

-- No step goes back, also where a validator or the scheduler throws.
pub progress_forward :
    (w : World) (s : Scheduler) (now : ℕ) (j : Job)
    → rank j.status.state ≤ rank (progress w s now j).1.status.state
unfolding progress
progress_forward w s now j = ground arith

-- A job that was neither complete nor finished is complete after progress only where its success
-- requirements are valid for the result that it has.
pub progress_completes :
    (w : World) (s : Scheduler) (now : ℕ) (j : Job)
    → j.status.state ≢ State.complete
    → j.status.state ≢ State.job_finished
    → (progress w s now j).1.status.state ≡ State.complete
    → requirements_met w
        (record ((progress w s now j).1.status) { state = State.checking_success_requirements })
        j.success_requirements
      ≡ ok Status.valid
unfolding progress
progress_completes w s now j a b h = ground arith
