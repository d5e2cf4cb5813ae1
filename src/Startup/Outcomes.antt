-- ===== src/Startup/Outcomes.antt =====
-- What configure answers, and what it leaves behind; the order of the clean up actions.
use mathlib.Core.List.{append-nil, append_assoc}
use vnv.Base.{
  ℕ, ◌+◌, ◌<◌, ◌≡◌, inl, inr, refl, sym, subst, ap, ◌∙◌, Bool, true, false, ◌||◌, List, [], ◌∷◌,
  ◌++◌, Outcome, ok, raise, fault, vnv_exception, standard, text, ◌≢◌, Exn, arith, nat_key,
  Bool-cases,
}
use vnv.Base.Dict.{Dict, assign}
use vnv.Startup.{
  CleanUp, register_clean_up_action, in_order, values, Parts, Wishes, configure, or_two, Flagged,
}

module _ {S : Type 0} (parts : Parts S) where
  goes_on-raise : (e : Exn) (s s' : Flagged S) → or_two parts (raise e, s) ≡ (ok false, s') → ⊥
  goes_on-raise vnv_exception s s' h = absurd (cc h)
  goes_on-raise standard s s' h = absurd (cc h)
  goes_on-raise text s s' h = absurd (cc h)
  goes_on-raise fault s s' h = absurd (cc h)

  after_load :
      (w : Wishes) (b : Bool) (s s1 t : S) (o : Outcome (Unit {0}))
      → (w.run_tests || (w.on_cmdline || w.vnv_on)) ≡ true
      → parts.load_run_info s ≡ (o, s1)
      → configure parts w (b, s) ≡ (ok false, (true, t))
      → o ≡ ok tt
  unfolding configure
  after_load w b s s1 t (ok tt) on e h = refl
  after_load w b s s1 t (raise x) on e h =
      absurd (goes_on-raise x (true, s1) (true, t) (rw (on, e) at h))

  after_jobs :
      (w : Wishes) (b : Bool) (s s1 s2 t : S) (o : Outcome (Unit {0}))
      → (w.run_tests || (w.on_cmdline || w.vnv_on)) ≡ true
      → parts.load_run_info s ≡ (ok tt, s1)
      → parts.run_jobs s1 ≡ (o, s2)
      → configure parts w (b, s) ≡ (ok false, (true, t))
      → o ≡ ok tt
  unfolding configure
  after_jobs w b s s1 s2 t (ok tt) on e e' h = refl
  after_jobs w b s s1 s2 t (raise x) on e e' h =
      absurd (goes_on-raise x (true, s2) (true, t) (rw (on, e, e') at h))

  -- The unit tests, where they are asked for, and that the runtime goes on behind them.
  abbrev pub Tested : Bool → Bool → S → S → Type 0
  Tested true exit_after s t = (parts.run_unit_tests s ≡ (ok tt, t)) × (exit_after ≡ false)
  Tested false exit_after s t = t ≡ s

  initialized_at :
      (w : Wishes) (b : Bool) (s s1 s2 s3 t : S) (o : Outcome (Unit {0}))
      → (w.run_tests || (w.on_cmdline || w.vnv_on)) ≡ true
      → parts.load_run_info s ≡ (ok tt, s1)
      → parts.run_jobs s1 ≡ (ok tt, s2)
      → w.run_unit_tests ≡ false
      → parts.initialize_actions s2 ≡ (o, s3)
      → configure parts w (b, s) ≡ (ok false, (true, t))
      → parts.initialize_actions s2 ≡ (ok tt, t)
  unfolding configure
  initialized_at w b s s1 s2 s3 t (ok tt) on e e' u e'' h =
      e'' ∙ ap (λ x. (ok tt, x)) (cc (rw (on, e, e', u, e'') at h))
  initialized_at w b s s1 s2 s3 t (raise x) on e e' u e'' h =
      absurd (goes_on-raise x (true, s3) (true, t) (rw (on, e, e', u, e'') at h))

  tested_at :
      (w : Wishes) (b : Bool) (s s1 s2 s3 s4 t : S) (o o' : Outcome (Unit {0}))
      → (w.run_tests || (w.on_cmdline || w.vnv_on)) ≡ true
      → parts.load_run_info s ≡ (ok tt, s1)
      → parts.run_jobs s1 ≡ (ok tt, s2)
      → w.run_unit_tests ≡ true
      → parts.run_unit_tests s2 ≡ (o, s3)
      → parts.initialize_actions s3 ≡ (o', s4)
      → configure parts w (b, s) ≡ (ok false, (true, t))
      → (parts.run_unit_tests s2 ≡ (ok tt, s3))
        × (w.exit_after_tests ≡ false)
        × (parts.initialize_actions s3 ≡ (ok tt, t))
  unfolding configure
  tested_at w b s s1 s2 s3 s4 t (raise x) o' on e e' u e3 e4 h =
      absurd (goes_on-raise x (true, s3) (true, t) (rw (on, e, e', u, e3) at h))
  tested_at w b s s1 s2 s3 s4 t (ok _) (ok _) on e e' u e3 e4 h =
      elim (Bool-cases w.exit_after_tests) [
        | inl leave ↦ absurd (cc (rw (on, e, e', u, e3, leave) at h))
        | inr stay ↦
            (e3, stay, e4 ∙ ap (λ x. (ok tt, x)) (cc (rw (on, e, e', u, e3, stay, e4) at h)))
      ]
  tested_at w b s s1 s2 s3 s4 t (ok _) (raise x) on e e' u e3 e4 h =
      elim (Bool-cases w.exit_after_tests) [
        | inl leave ↦ absurd (cc (rw (on, e, e', u, e3, leave) at h))
        | inr stay ↦
            absurd (goes_on-raise x (true, s4) (true, t) (rw (on, e, e', u, e3, stay, e4) at h))
      ]

  -- Where the tests are on, configure lets the application go on only if the parts have all ended
  -- without an exception, one behind the other, in the order: the information is loaded, the jobs
  -- are run, the unit tests are run where they are asked for and do not end the program, and the
  -- actions are initialized, which leaves the state.
  pub configure_goes_on :
      (w : Wishes) (b : Bool) (s t : S)
      → (w.run_tests || (w.on_cmdline || w.vnv_on)) ≡ true
      → configure parts w (b, s) ≡ (ok false, (true, t))
      → (s1 s2 s3 : S) × (parts.load_run_info s ≡ (ok tt, s1))
        × (parts.run_jobs s1 ≡ (ok tt, s2))
        × Tested w.run_unit_tests w.exit_after_tests s2 s3
        × (parts.initialize_actions s3 ≡ (ok tt, t))
  configure_goes_on w b s t on h =
      let (o1, s1) = parts.load_run_info s in
      let loaded : parts.load_run_info s ≡ (ok tt, s1) =
        ap (λ o. (o, s1)) (after_load w b s s1 t o1 on refl h) in
      let (o2, s2) = parts.run_jobs s1 in
      let ran : parts.run_jobs s1 ≡ (ok tt, s2) =
        ap (λ o. (o, s2)) (after_jobs w b s s1 s2 t o2 on loaded refl h) in
      elim (Bool-cases w.run_unit_tests) [
        | inl asked ↦
            let (o3, s3) = parts.run_unit_tests s2 in
            let (o4, s4) = parts.initialize_actions s3 in
            let (tested, stay, done) =
              tested_at w b s s1 s2 s3 s4 t o3 o4 on loaded ran asked refl refl h in
            (s1, s2, s3, loaded, ran, rw asked (tested, stay), done)
        | inr not_asked ↦
            let (o3, s3) = parts.initialize_actions s2 in
            (
              s1,
              s2,
              s2,
              loaded,
              ran,
              rw not_asked refl,
              initialized_at w b s s1 s2 s3 t o3 on loaded ran not_asked refl h,
            )
      ]

  -- Where the tests were asked for and loading the information throws,
  -- which undefined behaviour does not, configure tells the
  -- application to end, and leaves the tests on: a later injection point runs on what was set up by then.
  pub configure_failed :
      (w : Wishes) (b : Bool) (s s' : S) (e : Exn)
      → (w.run_tests || (w.on_cmdline || w.vnv_on)) ≡ true
      → parts.load_run_info s ≡ (raise e, s')
      → e ≢ fault
      → configure parts w (b, s) ≡ (ok true, (true, s'))
  unfolding configure
  configure_failed w b s s' vnv_exception on fails h = rw (on, fails) refl
  configure_failed w b s s' standard on fails h = rw (on, fails) refl
  configure_failed w b s s' text on fails h = rw (on, fails) refl
  configure_failed w b s s' fault on fails h = absurd (h refl)

module _ {A : Type 0} where
  abbrev pub register_all : List A → CleanUp A → CleanUp A
  register_all [] s = s
  register_all (a ∷ actions) s = register_all actions (register_clean_up_action a s).1

  abbrev KeysBelow : ℕ → Dict ℕ A → Type 0
  KeysBelow n [] = Unit
  KeysBelow n ((k, a) ∷ m) = (k < n) × KeysBelow n m

  assign-last : (n : ℕ) (a : A) (m : Dict ℕ A) → KeysBelow n m → assign n a m ≡ m ++ (n, a) ∷ []
  unfolding assign
  assign-last n a [] h = refl
  assign-last n a ((k, b) ∷ m) (lt, h) = ground (arith, assign-last n a m h)

  KeysBelow-last :
      (n : ℕ) (a : A) (m : Dict ℕ A) → KeysBelow n m → KeysBelow (n + 1) (m ++ (n, a) ∷ [])
  KeysBelow-last n a [] h = (omega arith, tt)
  KeysBelow-last n a ((k, b) ∷ m) (lt, h) = (omega arith, KeysBelow-last n a m h)

  values-last : (n : ℕ) (a : A) (m : Dict ℕ A) → values (m ++ (n, a) ∷ []) ≡ values m ++ a ∷ []
  values-last n a [] = refl
  values-last n a ((k, b) ∷ m) = ap (λ l. b ∷ l) (values-last n a m)

  registered_from :
      (actions : List A) (s : CleanUp A)
      → KeysBelow s.cleanup_action_counter s.cleanup_actions
      → in_order (register_all actions s) ≡ in_order s ++ actions
  unfolding register_clean_up_action
  registered_from [] s h = sym (append-nil (in_order s))
  registered_from (a ∷ actions) s h =
      let n = s.cleanup_action_counter in
      let m = s.cleanup_actions in
      let appended = assign-last n a m h in
      registered_from actions (register_clean_up_action a s).1
        (subst (KeysBelow (n + 1)) (sym appended) (KeysBelow-last n a m h))
      ∙ ap (λ d. values d ++ actions) appended
      ∙ ap (λ l. l ++ actions) (values-last n a m)
      ∙ append_assoc (values m) (a ∷ []) actions

  -- Finalize calls the clean up actions in the order in which they were registered, each as often.
  pub clean_up_in_order :
      (actions : List A)
      → in_order (register_all actions record { cleanup_action_counter = 0; cleanup_actions = [] })
        ≡ actions
  clean_up_in_order actions =
      registered_from actions record { cleanup_action_counter = 0; cleanup_actions = [] } tt
