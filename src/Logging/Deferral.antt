-- ===== src/Logging/Deferral.antt =====
-- Messages that are logged before the logger is configured.
use mathlib.Core.List.{append-nil, append_assoc}
use vnv.Base.{
  ℕ, suc, ◌≤◌, ◌≡◌, refl, sym, ◌∙◌, ap, Bool, true, false, List, [], ◌∷◌, ◌++◌, Option, none, some,
  Outcome, ok, arith, length, Str,
}
use vnv.Logging.{Message, World, Surroundings, LogWriteType, held, at_stage, log, set_log}
use vnv.Logging.Queue.{
  IsTaking, is_writable, told, all_shown, shown, with_saved, log-shown, all_shown-with_saved,
}

module _ {C E : Type 0} where
  abbrev pub configure : Bool → LogWriteType → Str → World C E → World C E
  configure use_engine t filename w = record w {
    logger = (set_log use_engine t filename w.logger).1;
  }

  abbrev returned : Option (Outcome (Unit {0}) × World C E) → Option (World C E)
  returned (some (ok tt, w)) = some w
  returned o = none

module _ {C E : Type 0} (u : Surroundings C E) (n : ℕ) where
  abbrev pub next_world : Option (World C E) → (World C E → Option (World C E)) → Option (World C E)
  next_world none k = none
  next_world (some w) k = k w

  -- Several calls of `log`, with the same fuel for each.
  abbrev pub log_list : List (Message C) → World C E → Option (World C E)
  log_list [] w = some w
  log_list (m ∷ ms) w = next_world (returned (log u n m w)) (log_list ms)

  abbrev staged : World C E → List (Message C) → List (Message C)
  staged w [] = []
  staged w (m ∷ ms) = at_stage m w ∷ staged w ms

  length-staged : (w : World C E) (ms : List (Message C)) → length (staged w ms) ≡ length ms
  length-staged w [] = refl
  length-staged w (m ∷ ms) = ap suc (length-staged w ms)

  log_list-held :
      (ms q : List (Message C)) (w : World C E)
      → held w ≡ true
      → log_list ms (with_saved q w) ≡ some (with_saved (q ++ staged w ms) w)
  unfolding log
  log_list-held [] q w h = rw (append-nil q) refl
  log_list-held (m ∷ ms) q w h =
      rw (log, h, sym (append_assoc q (at_stage m w ∷ []) (staged w ms)))
        (log_list-held ms (q ++ at_stage m w ∷ []) w h)

  log_list-shown :
      (ms : List (Message C)) (w : World C E)
      → IsTaking u
      → is_writable w ≡ true
      → held w ≡ false
      → log_list ms (with_saved [] w) ≡ some (told u ms w)
  log_list-shown [] w h s g = refl
  log_list-shown (m ∷ ms) w h s g =
      rw (log-shown u m (with_saved [] w) n h s g (omega arith))
        (log_list-shown ms (shown u (at_stage m w) w) h s g)

  all_shown-staged :
      (ms : List (Message C)) (m : Message C) (w c : World C E)
      → all_shown u (staged w ms ++ m ∷ []) c ≡ all_shown u (ms ++ m ∷ []) c
  all_shown-staged [] m w c = refl
  all_shown-staged (k ∷ ms) m w c = all_shown-staged ms m w _

  configure-with_saved :
      (use_engine : Bool) (t : LogWriteType) (filename : Str) (q : List (Message C)) (w : World C E)
      → w.logger.locked ≡ false
      → configure use_engine t filename (with_saved q w)
        ≡ with_saved q (configure use_engine t filename w)
  configure-with_saved use_engine t filename q w l = rw l refl

  emptied : (w : World C E) → w.logger.saved_logs ≡ [] → with_saved [] w ≡ w
  emptied w e = ap (λ q. with_saved q w) (sym e)

  before :
      (ms : List (Message C)) (w : World C E)
      → w.logger.locked ≡ false
      → w.logger.saved_logs ≡ []
      → log_list ms w ≡ some (with_saved (staged w ms) w)
  before ms w l q = ap (log_list ms) (sym (emptied w q)) ∙ log_list-held ms [] w (rw l refl)

  all_told :
      (ms : List (Message C)) (m : Message C) (w c : World C E)
      → told u (staged w ms ++ m ∷ []) (with_saved (staged w ms) c) ≡ told u (ms ++ m ∷ []) c
  all_told ms m w c = ap (with_saved []) (
      all_shown-with_saved u (staged w ms ++ m ∷ []) (staged w ms) c
      ∙ ap (with_saved (staged w ms)) (all_shown-staged ms m w c))

  -- Where the logger is not configured and has saved nothing, the engine takes every message,
  -- the configuration gives a stream that can be written to and an engine that is set up if one
  -- is used, and the fuel covers the messages: logging messages, then configuring, then logging
  -- one more, leaves the world as configuring first and then logging them all.
  pub late_configuration :
      (use_engine : Bool) (t : LogWriteType) (filename : Str) (ms : List (Message C))
      (m : Message C) (w : World C E)
      → let c = configure use_engine t filename w in
        IsTaking u
        → w.logger.locked ≡ false
        → w.logger.saved_logs ≡ []
        → is_writable c ≡ true
        → held c ≡ false
        → length ms ≤ n
        → next_world (log_list ms w) (λ w'. log_list (m ∷ []) (configure use_engine t filename w'))
          ≡ log_list (ms ++ m ∷ []) c
  late_configuration use_engine t filename ms m w h l q s g le =
      let c = configure use_engine t filename w in
      ap (λ o. next_world o (λ w'. log_list (m ∷ []) (configure use_engine t filename w')))
        (before ms w l q)
      ∙ ap (log_list (m ∷ [])) (configure-with_saved use_engine t filename (staged w ms) w l)
      ∙ ap (λ o. next_world (returned o) some)
          (log-shown u m (with_saved (staged w ms) c) n h s g (omega (arith, length-staged w ms)))
      ∙ ap some (all_told ms m w c)
      ∙ sym (log_list-shown (ms ++ m ∷ []) c h s g)
      ∙ ap (log_list (ms ++ m ∷ [])) (emptied c (rw l q))
