-- ===== src/Workflow/Answers.antt =====
-- The answers of a validator as files stay and jobs go on.
use vnv.Base.{
  ◌≡◌, refl, ◌≢◌, ◌⊎◌, inl, inr, Bool, true, false, some, none, Str, Outcome, ok, raise, arith,
  if◌then◌else◌, Option-cases, ap, sym, subst, [], ◌∷◌, ◌∙◌,
}
use vnv.Base.Int.{ℤ}
use vnv.Workflow.{
  World, JobStatus, State, Status, wait, Validator, boolean, and_or, file, job_finished, validate,
  validate_other, combine, combine_and, combine_or, answer, compare_exit,
}

abbrev IsOver : JobStatus → Type 0
IsOver s = (s.state ≡ State.error) ⊎ (s.state ≡ State.complete)

-- The files stay, no job goes away, and a job that is complete or in error stays as it is.
pub record GoesOn (w w' : World) : Type 0 where
  pub files : (f : Str) → w'.file_exists f ≡ w.file_exists f
  pub jobs :
      (n : Str) (s : JobStatus)
      → w.job_status n ≡ some s
      → (s' : JobStatus) × (w'.job_status n ≡ some s') × (IsOver s → s' ≡ s)

decided_over :
    (s : JobStatus) (comp : Str) (val : ℤ) (a : Status)
    → validate_other (some s) comp val ≡ ok a
    → a ≢ wait
    → IsOver s
unfolding validate_other
decided_over s comp val a e d = go s.state refl
  where
    go : (x : State) → s.state ≡ x → IsOver s
    go State.error q = inl q
    go State.complete q = inr q
    go x q = ground arith

some_answers :
    (s : JobStatus) (comp : Str) (val : ℤ)
    → (a : Status) × (validate_other (some s) comp val ≡ ok a)
unfolding validate_other
some_answers s comp val = go s.state refl
  where
    go : (x : State) → s.state ≡ x → (a : Status) × (validate_other (some s) comp val ≡ ok a)
    go State.error q = (Status.invalid, ground arith)
    go State.complete q = (answer (compare_exit comp s.result.exit_code val), ground arith)
    go State.cancelled q = (wait, ground arith)
    go State.waiting_for_launch q = (wait, ground arith)
    go State.checking_dependencies q = (wait, ground arith)
    go State.staging_data q = (wait, ground arith)
    go State.launching_job q = (wait, ground arith)
    go State.running q = (wait, ground arith)
    go State.checking_success_requirements q = (wait, ground arith)
    go State.job_finished q = (wait, ground arith)

-- An answer after `w'` that agrees with `a` where that is decided.
abbrev Later : Outcome Status → Status → Type 0
Later o a = (a' : Status) × (o ≡ ok a') × (a ≢ wait → a' ≡ a)

job-Later :
    (w w' : World) (n comp : Str) (val : ℤ) (a : Status)
    → GoesOn w w'
    → validate_other (w.job_status n) comp val ≡ ok a
    → Later (validate_other (w'.job_status n) comp val) a
unfolding validate_other
job-Later w w' n comp val a h e = elim (Option-cases (w.job_status n)) [
  | inl gone ↦ absurd (none_raises (ap (λ o. validate_other o comp val) (sym gone) ∙ e))
  | inr (s, there) ↦
      let (s', there', over) = h.jobs n s there in
      let (a', e') = some_answers s' comp val in
      let now = ap (λ o. validate_other o comp val) (sym there) ∙ e in
      (
        a',
        ap (λ o. validate_other o comp val) there' ∙ e',
        λ d. ok_injective (
            sym e'
            ∙ ap (λ x. validate_other (some x) comp val) (over (decided_over s comp val a now d))
            ∙ now),
      )
]
  where
    none_raises : validate_other none comp val ≡ ok a → ⊥
    none_raises q = cc

    ok_injective : {x y : Status} → ok x ≡ ok y → x ≡ y
    ok_injective q = cc

combine-Later :
    (both : Bool) (b c b' c' : Status)
    → (b ≢ wait → b' ≡ b)
    → (c ≢ wait → c' ≡ c)
    → Later (combine both (ok b') (ok c')) (if both then combine_and b c else combine_or b c)
combine-Later true b c b' c' h k = (combine_and b' c', refl, ground arith)
combine-Later false b c b' c' h k = (combine_or b' c', refl, ground arith)

Outcome-cases : (o : Outcome Status) → ((a : Status) × (o ≡ ok a)) ⊎ ((a : Status) → o ≢ ok a)
Outcome-cases (ok a) = inl (a, refl)
Outcome-cases (raise e) = inr λ a q. cc

combine_answers :
    (both : Bool) (x y : Outcome Status) (a : Status)
    → combine both x y ≡ ok a
    → (b : Status) × (c : Status) × (x ≡ ok b)
      × (y ≡ ok c)
      × (a ≡ (if both then combine_and b c else combine_or b c))
combine_answers both (ok b) (ok c) a e = (b, c, refl, refl, cc)
combine_answers both (ok b) (raise x) a e = ground arith
combine_answers both (raise x) y a e = ground arith

-- As long as the files stay, no job goes away, and every job that is complete or in error stays as
-- it is, a validator that has decided gives the same answer again, and one that waits still answers.
pub validate_stays :
    (w w' : World) (self : JobStatus) (v : Validator) (a : Status)
    → GoesOn w w'
    → validate w self v ≡ ok a
    → (a' : Status) × (validate w' self v ≡ ok a') × (a ≢ wait → a' ≡ a)
unfolding validate
validate_stays w w' self (boolean val) a h e = (a, e, λ d. refl)
validate_stays w w' self (file filename req wait_) a h e = (a, rw (h.files filename) e, λ d. refl)
validate_stays w w' self (job_finished [] comp val) a h e = (a, e, λ d. refl)
validate_stays w w' self (job_finished (c ∷ n) comp val) a h e =
    job-Later w w' (c ∷ n) comp val a h e
validate_stays w w' self (and_or both one two) a h e =
    let (b, c, eb, ec, q) = combine_answers both (validate w self one) (validate w self two) a e in
    let (b', eb', kb) = validate_stays w w' self one b h eb in
    let (c', ec', kc) = validate_stays w w' self two c h ec in
    let (a', ea', ka) = combine-Later both b c b' c' kb kc in
    (a', rw (eb', ec') ea', λ d. ka (subst (λ x. x ≢ wait) q d) ∙ sym q)
