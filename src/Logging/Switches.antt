-- ===== src/Logging/Switches.antt =====
-- What does not stop a message: the switches of the levels, and an engine that refuses it.
use mathlib.Core.List.{append-nil}
use vnv.Base.{
  ℕ, zero, suc, ◌≡◌, refl, sym, subst, ◌∙◌, ap, Bool, true, false, not, ◌&&◌, List, [], ◌∷◌, ◌++◌,
  Option, none, some, Outcome, ok, raise, standard, fault, arith, Str, str_key, Bool-cases, inl,
  inr,
}
use vnv.Base.Dict.{Dict, contains}
use vnv.Logging.{
  Message, World, Surroundings, file, held, at_stage, log, deliver_after, flush, deliver, log_saved,
  dangling, pop,
}
use vnv.Logging.Queue.{is_writable, shown, with_saved}
use vnv.Logging.Deferral.{configure}

module _ {C E : Type 0} where
  abbrev pub with_logs : Dict Str Bool → World C E → World C E
  with_logs d w = record w { logger = record (w.logger) { logs = d } }

  abbrev pub result_with_logs :
      Dict Str Bool
      → Option (Outcome (Unit {0}) × World C E)
      → Option (Outcome (Unit {0}) × World C E)
  result_with_logs d none = none
  result_with_logs d (some (r, w)) = some (r, with_logs d w)

module _ {C E : Type 0} (u : Surroundings C E) (d : Dict Str Bool) where
  deliver-with_logs :
      (m : Message C) (w : World C E)
      → deliver u m (with_logs d w) ≡ ((deliver u m w).0, with_logs d (deliver u m w).1)
  deliver-with_logs m w = ground arith

  log_saved-with_logs :
      (m : Message C) (w : World C E)
      → log_saved u m (with_logs d w) ≡ ((log_saved u m w).0, with_logs d (log_saved u m w).1)
  unfolding log_saved
  log_saved-with_logs m w = ground (arith, deliver-with_logs (at_stage m w) w)

  flush-with_logs :
      (n : ℕ) (q : List (Message C)) (w : World C E)
      → flush u n (with_saved q (with_logs d w)) ≡ result_with_logs d (flush u n (with_saved q w))
  unfolding flush
  flush-with_logs zero [] w = refl
  flush-with_logs zero (m ∷ q) w = refl
  flush-with_logs (suc n) [] w = refl
  flush-with_logs (suc n) (m ∷ q) w =
      let (r, w') = log_saved u m (with_saved (m ∷ q) w) in
      ground (
        arith,
        log_saved-with_logs m (with_saved (m ∷ q) w),
        flush-with_logs n (pop w').logger.saved_logs (pop w'),
      )

  after-with_logs :
      (m : Message C) (o : Option (Outcome (Unit {0}) × World C E))
      → deliver_after u m (result_with_logs d o) ≡ result_with_logs d (deliver_after u m o)
  after-with_logs m none = refl
  after-with_logs m (some (raise e, w)) = refl
  after-with_logs m (some (ok t, w)) = ap some (deliver-with_logs (at_stage m w) w)

  -- Whatever the switches of the levels say, log does and returns the same.
  pub levels_ignored :
      (n : ℕ) (m : Message C) (w : World C E)
      → log u n m (with_logs d w) ≡ result_with_logs d (log u n m w)
  unfolding log
  levels_ignored n m w = elim (Bool-cases (held w)) [
    | inl held_back ↦ rw (held_back) refl
    | inr free ↦ rw (free) (
        ap (deliver_after u m) (flush-with_logs n w.logger.saved_logs w)
        ∙ after-with_logs m (flush u n w))
  ]

module _ {C E : Type 0} (u : Surroundings C E) where
  -- Every message is refused with a std::exception, and the black list names none of the packages.
  abbrev IsRefusing : Type 0
  IsRefusing = (m : Message C) (e : E) → (u.engine_log m e).0 ≡ raise standard

  abbrev allowed : Dict Str (Unit {0}) → List (Message C) → Bool
  allowed b [] = true
  allowed b (m ∷ q) = not (contains m.package_name b) && allowed b q

  allowed-append :
      (b : Dict Str (Unit {0})) (q : List (Message C)) (m : Message C)
      → allowed b (m ∷ q) ≡ true
      → allowed b (q ++ m ∷ []) ≡ true
  allowed-append b [] m h = h
  allowed-append b (k ∷ q) m h = ground (arith, allowed-append b q m)

  deliver-refused :
      (m : Message C) (w : World C E)
      → IsRefusing
      → w.logger.engine ≡ true
      → is_writable w ≡ true
      → contains m.package_name w.logger.package_black_list ≡ false
      → deliver u m w ≡ (ok tt, with_saved (w.logger.saved_logs ++ m ∷ []) (shown u m w))
  deliver-refused m w h e s b = ground (arith, h m w.engine_state, append-nil w.written)

  log_saved-refused :
      (m : Message C) (w : World C E)
      → IsRefusing
      → w.logger.engine ≡ true
      → is_writable w ≡ true
      → held w ≡ false
      → contains m.package_name w.logger.package_black_list ≡ false
      → log_saved u m w
        ≡ (ok tt, with_saved (w.logger.saved_logs ++ at_stage m w ∷ []) (shown u (at_stage m w) w))
  unfolding log_saved
  log_saved-refused m w h e s g b = rw (g) (deliver-refused (at_stage m w) w h e s b)

  flush_endless :
      (n : ℕ) (m : Message C) (q : List (Message C)) (w : World C E)
      → IsRefusing
      → w.logger.engine ≡ true
      → is_writable w ≡ true
      → held w ≡ false
      → allowed w.logger.package_black_list (m ∷ q) ≡ true
      → flush u n (with_saved (m ∷ q) w) ≡ none
  unfolding flush
  flush_endless zero m q w h e s g b = refl
  flush_endless (suc n) m [] w h e s g b =
      let step = log_saved-refused m (with_saved (m ∷ []) w) h e s g (ground arith) in
      rw (flush, step, step)
        (flush_endless n (at_stage m w) [] (shown u (at_stage m w) w) h e s g b)
  flush_endless (suc n) m (k ∷ q) w h e s g b =
      let step = log_saved-refused m (with_saved (m ∷ k ∷ q) w) h e s g (ground arith) in
      rw (flush, step, step)
        (flush_endless n k (q ++ at_stage m w ∷ []) (shown u (at_stage m w) w) h e s g
          (allowed-append w.logger.package_black_list (k ∷ q) (at_stage m w) b))

  -- With a logger that is configured and uses the engine, a stream that can be written to, an
  -- engine that is set up and answers every message with a std::exception, and with messages
  -- saved of which the black list names none of the packages, the loop of log over the saved
  -- messages is still running after any number of turns.
  pub log_endless :
      (n : ℕ) (m k : Message C) (q : List (Message C)) (w : World C E)
      → IsRefusing
      → w.logger.engine ≡ true
      → is_writable w ≡ true
      → held w ≡ false
      → w.logger.saved_logs ≡ k ∷ q
      → allowed w.logger.package_black_list (k ∷ q) ≡ true
      → log u n m w ≡ none
  unfolding log
  log_endless n m k q w h e s g z b =
      rw (g, ap (λ l. flush u n (with_saved l w)) z, flush_endless n k q w h e s g b) refl

  flush-empty :
      (n : ℕ) (w : World C E) → flush u n (with_saved [] w) ≡ some (ok tt, with_saved [] w)
  unfolding flush
  flush-empty zero w = refl
  flush-empty (suc n) w = refl

  deliver-faults :
      (m : Message C) (w : World C E)
      → ((k : Message C) (e : E) → (u.engine_log k e).0 ≡ ok tt)
      → w.logger.write_type ≡ file
      → w.logger.stream ≡ dangling
      → contains m.package_name w.logger.package_black_list ≡ false
      → u.rank m.comm ≡ 0
      → (deliver u m w).0 ≡ raise fault
  deliver-faults m w h t d b r = ground (arith, h m w.engine_state)

  log-faults :
      (n : ℕ) (m : Message C) (w : World C E)
      → held w ≡ false
      → (deliver u (at_stage m w) (with_saved [] w)).0 ≡ raise fault
      → (w' : World C E) × (log u n m (with_saved [] w) ≡ some (raise fault, w'))
  unfolding log
  log-faults n m w g f =
      let w' = (deliver u (at_stage m w) (with_saved [] w)).1 in
      (w', rw (g, flush-empty n w) (ap (λ r. some (r, w')) f))

  -- With an engine that takes every message, where a logger that was not configured and has
  -- saved nothing is configured to write to a file, and its engine is set up if one is used, the
  -- next message that the black list does not stop, on rank 0, is written through a pointer to a
  -- stream that is gone.
  pub file_faults :
      (use_engine : Bool) (filename : Str) (n : ℕ) (m : Message C) (w : World C E)
      → let c = configure use_engine file filename w in
        ((k : Message C) (e : E) → (u.engine_log k e).0 ≡ ok tt)
        → w.logger.locked ≡ false
        → w.logger.saved_logs ≡ []
        → held c ≡ false
        → contains m.package_name w.logger.package_black_list ≡ false
        → u.rank m.comm ≡ 0
        → (w' : World C E) × (log u n m c ≡ some (raise fault, w'))
  file_faults use_engine filename n m w h l q g b r =
      let c = configure use_engine file filename w in
      subst (λ x. (w' : World C E) × (log u n m x ≡ some (raise fault, w')))
        (ap (λ k. with_saved k c) (sym (rw (l) q)))
        (log-faults n m c g
          (deliver-faults (at_stage m c) (with_saved [] c) h (rw l refl) (rw l refl) (rw l b) r))
