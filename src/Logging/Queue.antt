-- ===== src/Logging/Queue.antt =====
-- The queue of saved messages.
use mathlib.Core.List.{append-nil}
use vnv.Base.{
  ℕ, zero, suc, ◌≤◌, ◌≡◌, refl, ◌∙◌, ap, Bool, true, false, not, List, [], ◌∷◌, ◌++◌, some, ok,
  arith, length, ◌==◌, Str, str_key, if◌then◌else◌,
}
use vnv.Base.Dict.{contains}
use vnv.Logging.{
  Message, Logger, World, Surroundings, off, Stream, held, at_stage, deliver, log_saved, flush, log,
  is_dangling, line_text,
}

module _ {C E : Type 0} where
  abbrev pub with_saved : List (Message C) → World C E → World C E
  with_saved q w = record w { logger = record (w.logger) { saved_logs = q } }

  abbrev pub is_writable : World C E → Bool
  is_writable w = elim w.logger.write_type [ off ↦ true | t ↦ not (is_dangling w.logger.stream) ]

module _ {C E : Type 0} (u : Surroundings C E) where
  -- What one message adds to the engine and to the lines, where nothing goes wrong.
  abbrev pub engine_after : World C E → Message C → E → E
  engine_after w m e =
      if contains m.package_name w.logger.package_black_list
      then e
      else if w.logger.engine
      then (u.engine_log m e).1
      else e

  abbrev pub lines_of : World C E → Message C → List (Stream × Str)
  lines_of w m =
      if contains m.package_name w.logger.package_black_list then [] else elim w.logger.write_type [
        | off ↦ []
        | t ↦ if u.rank m.comm == 0 then (w.logger.stream, line_text u m w) ∷ [] else []
      ]

  abbrev pub IsTaking : Type 0
  IsTaking = (m : Message C) (e : E) → (u.engine_log m e).0 ≡ ok tt

  abbrev pub shown : Message C → World C E → World C E
  shown m w = record w {
    engine_state = engine_after w m w.engine_state;
    written = w.written ++ lines_of w m;
  }

  deliver-shown :
      (m : Message C) (w : World C E)
      → IsTaking
      → is_writable w ≡ true
      → deliver u m w ≡ (ok tt, shown m w)
  deliver-shown m w h s = go w.logger refl
    where
      go : (l : Logger C) → w.logger ≡ l → deliver u m w ≡ (ok tt, shown m w)
      go l e = ground (arith, h m w.engine_state, append-nil w.written)

  abbrev pub all_shown : List (Message C) → World C E → World C E
  all_shown [] w = w
  all_shown (m ∷ q) w = all_shown q (shown (at_stage m w) w)

  pub all_shown-with_saved :
      (q r : List (Message C)) (w : World C E)
      → all_shown q (with_saved r w) ≡ with_saved r (all_shown q w)
  all_shown-with_saved [] r w = refl
  all_shown-with_saved (m ∷ q) r w = all_shown-with_saved q r (shown (at_stage m w) w)

  log_saved-shown :
      (m : Message C) (w : World C E)
      → IsTaking
      → is_writable w ≡ true
      → held w ≡ false
      → log_saved u m w ≡ (ok tt, shown (at_stage m w) w)
  unfolding log_saved
  log_saved-shown m w h s g = rw g (deliver-shown (at_stage m w) w h s)

  flush-shown :
      (n : ℕ) (q : List (Message C)) (w : World C E)
      → IsTaking
      → is_writable w ≡ true
      → held w ≡ false
      → length q ≤ n
      → flush u n (with_saved q w) ≡ some (ok tt, with_saved [] (all_shown q w))
  unfolding flush
  flush-shown zero [] w h s g le = refl
  flush-shown zero (m ∷ q) w h s g le = absurd (omega arith)
  flush-shown (suc n) [] w h s g le = refl
  flush-shown (suc n) (m ∷ q) w h s g le =
      rw
        (
          flush,
          log_saved-shown m (with_saved (m ∷ q) w) h s g,
          log_saved-shown m (with_saved (m ∷ q) w) h s g,
        )
        (flush-shown n q (shown (at_stage m w) w) h s g (omega arith))

  abbrev pub told : List (Message C) → World C E → World C E
  told q w = with_saved [] (all_shown q w)

  all_shown-logger : (q : List (Message C)) (w : World C E) → (all_shown q w).logger ≡ w.logger
  all_shown-logger [] w = refl
  all_shown-logger (m ∷ q) w = all_shown-logger q (shown (at_stage m w) w)

  all_shown-append :
      (q : List (Message C)) (m : Message C) (w : World C E)
      → all_shown (q ++ m ∷ []) w ≡ shown (at_stage m (all_shown q w)) (all_shown q w)
  all_shown-append [] m w = refl
  all_shown-append (n ∷ q) m w = all_shown-append q m (shown (at_stage n w) w)

  writable_after :
      (q : List (Message C)) (w : World C E)
      → is_writable w ≡ true
      → is_writable (with_saved [] (all_shown q w)) ≡ true
  writable_after [] w s = s
  writable_after (m ∷ q) w s = writable_after q (shown (at_stage m w) w) s

  -- With an engine that takes every message, a stream that can be written to, a logger that is
  -- configured and fuel for the saved messages, log returns normally, has shown the saved
  -- messages, the oldest first, and then its own, and leaves nothing saved.
  pub log-shown :
      (m : Message C) (w : World C E) (n : ℕ)
      → IsTaking
      → is_writable w ≡ true
      → held w ≡ false
      → length w.logger.saved_logs ≤ n
      → log u n m w ≡ some (ok tt, told (w.logger.saved_logs ++ m ∷ []) w)
  unfolding log
  log-shown m w n h s g le =
      rw (g, flush-shown n w.logger.saved_logs w h s g le)
        (ap some (deliver-shown (at_stage m (told q w)) (told q w) h (writable_after q w s))
          ∙ rw (all_shown-append q m w) refl)
    where
      q : List (Message C)
      q = w.logger.saved_logs
