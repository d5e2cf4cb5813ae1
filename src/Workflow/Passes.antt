-- ===== src/Workflow/Passes.antt =====
-- What a pass over the jobs that ends the loop of JobManager::run says of them.
use vnv.Base.{
  ℕ, ◌≡◌, refl, sym, ap, subst, ◌∙◌, ◌⊎◌, inl, inr, Bool, true, false, List, [], ◌∷◌, none, some,
  Str, str_key, str_eq_iff, Outcome, ok, raise, arith, Bool-cases, Option-cases, All,
}
use vnv.Base.Dict.{find, assign, find-assign, find-assign_self}
use vnv.Workflow.{State}
use vnv.Workflow.Jobs.{Job, Jobs, Scheduler, progress, world_of, same_phase, judged, stored, pass}
use vnv.Workflow.Progress.{progress_over}

-- A job that the phase need not wait for.
abbrev pub IsDone : Bool → Jobs → Str → Type 0
IsDone before jobs n =
    (j : Job)
    → find n jobs ≡ some j
    → same_phase j.before_application before ≡ true
    → (j.status.state ≡ State.complete) ⊎ (j.status.state ≡ State.error)

-- A job whose error ends the workflow.
abbrev pub HasKilled : Jobs → Type 0
HasKilled jobs =
    (n : Str) × (j : Job) × (find n jobs ≡ some j)
    × (j.status.state ≡ State.error)
    × (j.kill_on_error ≡ true)

over-IsDone :
    (before : Bool) (jobs : Jobs) (n : Str) (j : Job)
    → (j.status.state ≡ State.complete) ⊎ (j.status.state ≡ State.error)
    → IsDone before (assign n j jobs) n
over-IsDone before jobs n j h k found phase =
    subst (λ x. (x.status.state ≡ State.complete) ⊎ (x.status.state ≡ State.error))
      (some_injective (sym (find-assign_self n j jobs) ∙ found)) h
  where
    some_injective : {x y : Job} → some x ≡ some y → x ≡ y
    some_injective e = cc

module _ (file_exists : Str → Bool) (s : Scheduler) (now : ℕ) (before : Bool) where
  abbrev next : Jobs → Job → Outcome (Unit {0}) × Job
  next jobs j = progress (world_of file_exists jobs) s now j

  -- A turn of the loop leaves what is done.
  turn_keeps :
      (jobs : Jobs) (m n : Str) (j : Job)
      → find m jobs ≡ some j
      → same_phase j.before_application before ≡ true
      → IsDone before jobs n
      → IsDone before (assign m (next jobs j).1 jobs) n
  turn_keeps jobs m n j there phase h k found phase' = elim (Bool-cases (str_key.beq n m)) [
    | inr other ↦ h k (ground (arith, find-assign n m (next jobs j).1 jobs)) phase'
    | inl same ↦
        let eq = (str_eq_iff n m).0 same in
        let done = h j (ap (λ x. find x jobs) eq ∙ there) phase in
        let stays = ap (λ r. r.1) (next_over done) in
        over-IsDone before jobs m (next jobs j).1
          (subst (λ x. (x.status.state ≡ State.complete) ⊎ (x.status.state ≡ State.error))
            (sym stays) done)
          k (ap (λ x. find x (assign m (next jobs j).1 jobs)) (sym eq) ∙ found) phase'
  ]
    where
      next_over :
          (j.status.state ≡ State.complete) ⊎ (j.status.state ≡ State.error)
          → next jobs j ≡ (ok tt, j)
      next_over (inl c) = progress_over (world_of file_exists jobs) s now j (inl c)
      next_over (inr e) = progress_over (world_of file_exists jobs) s now j (inr (inl e))

  stored_keeps :
      (n k : Str) (o : Outcome (Unit {0})) (j : Job) (b : Bool)
      (rest : Bool → Jobs → Outcome Bool × Jobs) (jobs : Jobs)
      → ((c : Bool) → IsDone before (rest c (assign n j jobs)).1 k)
      → IsDone before (assign n j jobs) k
      → IsDone before (stored n (o, j) b rest jobs).1 k
  stored_keeps n k (raise e) j b rest jobs ih h = h
  stored_keeps n k (ok u) j b rest jobs ih h = go j.status.state j.kill_on_error
    where
      go : (x : State) (kill : Bool) → IsDone before (judged x kill b rest (assign n j jobs)).1 k
      go State.error true = h
      go State.error false = ih b
      go State.complete kill = ih b
      go _ kill = ih false

  pass_keeps :
      (ns : List Str) (b : Bool) (jobs : Jobs) (k : Str)
      → IsDone before jobs k
      → IsDone before (pass file_exists s now before ns b jobs).1 k
  unfolding pass
  pass_keeps [] b jobs k h = h
  pass_keeps (n ∷ ns) b jobs k h = elim (Option-cases (find n jobs)) [
    | inl none_ ↦ rw (pass, none_) (pass_keeps ns b jobs k h)
    | inr (j, there) ↦ elim (Bool-cases (same_phase j.before_application before)) [
      | inr other ↦ rw (pass, there, other) (pass_keeps ns b jobs k h)
      | inl phase ↦
          rw (pass, there, phase)
            (stored_keeps n k (next jobs j).0 (next jobs j).1 b (pass file_exists s now before ns)
              jobs
              (λ c.
                pass_keeps ns c (assign n (next jobs j).1 jobs) k
                  (turn_keeps jobs n k j there phase h))
              (turn_keeps jobs n k j there phase h))
    ]
  ]

  -- What a pass that ends as complete says, from the names on.
  Ends : Bool → List Str → Jobs → Type 0
  Ends b ns jobs = HasKilled jobs ⊎ ((b ≡ true) × All (IsDone before jobs) ns)

  stored-Ends :
      (n : Str) (ns : List Str) (o : Outcome (Unit {0})) (j : Job) (b : Bool) (jobs jobs' : Jobs)
      → ((c : Bool)
          → pass file_exists s now before ns c (assign n j jobs) ≡ (ok true, jobs')
          → Ends c ns jobs')
      → stored n (o, j) b (pass file_exists s now before ns) jobs ≡ (ok true, jobs')
      → Ends b (n ∷ ns) jobs'
  unfolding Ends
  stored-Ends n ns (raise e) j b jobs jobs' ih h = ground arith
  stored-Ends n ns (ok u) j b jobs jobs' ih h = go j.status.state refl j.kill_on_error refl h
    where
      done :
          (c : Bool)
          → (j.status.state ≡ State.complete) ⊎ (j.status.state ≡ State.error)
          → pass file_exists s now before ns c (assign n j jobs) ≡ (ok true, jobs')
          → HasKilled jobs' ⊎ ((c ≡ true) × All (IsDone before jobs') (n ∷ ns))
      done c over e = elim (ih c e) [
        | inl killed ↦ inl killed
        | inr (was, all) ↦ inr (
          was,
          (
            subst (λ r. IsDone before r.1 n) e
                (pass_keeps ns c (assign n j jobs) n (over-IsDone before jobs n j over)),
            all,
          ),
        )
      ]

      waits :
          pass file_exists s now before ns false (assign n j jobs) ≡ (ok true, jobs')
          → HasKilled jobs' ⊎ ((b ≡ true) × All (IsDone before jobs') (n ∷ ns))
      waits e = elim (ih false e) [
        | inl killed ↦ inl killed
        | inr (was, all) ↦ absurd (false_true was)
      ]
        where
          false_true : false ≡ true → ⊥
          false_true q = cc

      go :
          (x : State)
          → j.status.state ≡ x
          → (kill : Bool) → j.kill_on_error ≡ kill
          → judged x kill b (pass file_exists s now before ns) (assign n j jobs) ≡ (ok true, jobs')
          → HasKilled jobs' ⊎ ((b ≡ true) × All (IsDone before jobs') (n ∷ ns))
      go State.error q true k e =
          inl (n, j, ap (λ r. find n r.1) (sym e) ∙ find-assign_self n j jobs, q, k)
      go State.error q false k e = done b (inr q) e
      go State.complete q kill k e = done b (inl q) e
      go _ q kill k e = waits e

  skipped-Ends :
      (n : Str) (ns : List Str) (b : Bool) (jobs jobs' : Jobs)
      → IsDone before jobs n
      → pass file_exists s now before ns b jobs ≡ (ok true, jobs')
      → Ends b ns jobs'
      → Ends b (n ∷ ns) jobs'
  unfolding Ends
  skipped-Ends n ns b jobs jobs' h e (inl killed) = inl killed
  skipped-Ends n ns b jobs jobs' h e (inr (was, all)) =
      inr (was, (subst (λ r. IsDone before r.1 n) e (pass_keeps ns b jobs n h), all))

  absent-IsDone : (n : Str) (jobs : Jobs) → find n jobs ≡ none → IsDone before jobs n
  absent-IsDone n jobs e j found phase = absurd (none_some (sym e ∙ found))
    where
      none_some : none ≡ some j → ⊥
      none_some q = cc

  other-IsDone :
      (n : Str) (jobs : Jobs) (j : Job)
      → find n jobs ≡ some j
      → same_phase j.before_application before ≡ false
      → IsDone before jobs n
  other-IsDone n jobs j there other k found phase = ground arith

  pass_turn :
      (n : Str) (ns : List Str) (b : Bool) (jobs : Jobs) (j : Job)
      → find n jobs ≡ some j
      → same_phase j.before_application before ≡ true
      → pass file_exists s now before (n ∷ ns) b jobs
        ≡ stored n (next jobs j) b (pass file_exists s now before ns) jobs
  unfolding pass
  pass_turn n ns b jobs j there phase = rw (pass, there, phase) refl

  -- A pass over the names of the jobs that ends with `complete` true has left a job in error that
  -- ends the workflow, or else `complete` was true at its start and every one of the jobs that is of
  -- its phase is complete or in error.
  pub pass_ends :
      (ns : List Str) (b : Bool) (jobs jobs' : Jobs)
      → pass file_exists s now before ns b jobs ≡ (ok true, jobs')
      → HasKilled jobs' ⊎ ((b ≡ true) × All (IsDone before jobs') ns)
  unfolding pass Ends
  pass_ends [] b jobs jobs' h = inr (ground arith, tt)
  pass_ends (n ∷ ns) b jobs jobs' h = elim (Option-cases (find n jobs)) [
    | inl none_ ↦
        let e : pass file_exists s now before ns b jobs ≡ (ok true, jobs') =
          sym (rw (pass, none_) refl) ∙ h in
        skipped-Ends n ns b jobs jobs' (absent-IsDone n jobs none_) e (pass_ends ns b jobs jobs' e)
    | inr (j, there) ↦ elim (Bool-cases (same_phase j.before_application before)) [
      | inr other ↦
          let e : pass file_exists s now before ns b jobs ≡ (ok true, jobs') =
            sym (rw (pass, there, other) refl) ∙ h in
          skipped-Ends n ns b jobs jobs' (other-IsDone n jobs j there other) e
            (pass_ends ns b jobs jobs' e)
      | inl phase ↦
          stored-Ends n ns (next jobs j).0 (next jobs j).1 b jobs jobs'
            (λ c e. pass_ends ns c (assign n (next jobs j).1 jobs) jobs' e)
            (sym (pass_turn n ns b jobs j there phase) ∙ h)
    ]
  ]
