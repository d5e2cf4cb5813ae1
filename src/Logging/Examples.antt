-- ===== src/Logging/Examples.antt =====
-- Two messages before the configuration, and the loggers that go wrong.
use vnv.Base.{
  ℕ, ◌≡◌, refl, List, [], ◌∷◌, none, some, ok, raise, standard, fault, Str, str, str_key, true,
  false, arith, Outcome,
}
use vnv.Base.Int.{pos}
use vnv.Base.Dict.{find, assign}
use vnv.Logging.{
  Message, Logger, World, Surroundings, stdout, file, at_stage, log, new_logger, up, cout,
}
use vnv.Logging.Queue.{told, log-shown, shown, with_saved}
use vnv.Logging.Deferral.{configure, log_list, next_world, late_configuration}
use vnv.Logging.Switches.{with_logs, result_with_logs, levels_ignored, log_endless, file_faults}

abbrev note : Str → Str → Message ℕ
note level text = record {
  package_name = str "P";
  stage = pos 0;
  level = level;
  format = text;
  comm = 0;
}

abbrev surroundings : Outcome (Unit {0}) → Surroundings ℕ (List Str)
surroundings r = record {
  rank = λ c. c;
  unique_id_text = λ c. str "1";
  engine_log = λ m e. (r, m.format ∷ e);
}

abbrev fresh : Logger ℕ → World ℕ (List Str)
fresh l = record {
  logger = l;
  initialized = true;
  engine_state = [];
  ascii_colors = false;
  written = [];
}

abbrev start : World ℕ (List Str)
start = fresh (up (new_logger stdout))

abbrev warn : Message ℕ
warn = note (str "WARN") (str "a")

abbrev info : Message ℕ
info = note (str "INFO") (str "b")

-- One line, at depth one.
one_line :
    (shown (surroundings (ok tt)) (at_stage warn start) (configure true stdout [] start)).written
    ≡ (cout, str "----[P:WARN](Comm: 1): a") ∷ []
unfolding assign find
one_line = refl

in_order :
    (told (surroundings (ok tt)) (warn ∷ info ∷ []) (configure true stdout [] start)).engine_state
    ≡ str "b" ∷ str "a" ∷ []
unfolding assign find
in_order = refl

late_configuration_example :
    next_world
      (surroundings (ok tt))
      1
      (log_list (surroundings (ok tt)) 1 (warn ∷ []) start)
      (λ w. log_list (surroundings (ok tt)) 1 (info ∷ []) (configure true stdout [] w))
    ≡ log_list (surroundings (ok tt)) 1 (warn ∷ info ∷ []) (configure true stdout [] start)
late_configuration_example =
    late_configuration (surroundings (ok tt)) 1 true stdout [] (warn ∷ []) info start (λ m e. refl)
      refl refl refl refl (omega arith)

abbrev waiting : World ℕ (List Str)
waiting = with_saved (warn ∷ []) (configure true stdout [] start)

log-shown_example :
    log (surroundings (ok tt)) 1 info waiting
    ≡ some (ok tt, told (surroundings (ok tt)) (warn ∷ info ∷ []) waiting)
log-shown_example =
    log-shown (surroundings (ok tt)) info waiting 1 (λ m e. refl) refl refl (omega arith)

levels_ignored_sample :
    log (surroundings (ok tt)) 1 info (with_logs ((str "P:INFO", false) ∷ []) waiting)
    ≡ result_with_logs ((str "P:INFO", false) ∷ []) (log (surroundings (ok tt)) 1 info waiting)
levels_ignored_sample =
    levels_ignored (surroundings (ok tt)) ((str "P:INFO", false) ∷ []) 1 info waiting

log_endless_example : log (surroundings (raise standard)) 9 info waiting ≡ none
unfolding find
log_endless_example =
    log_endless (surroundings (raise standard)) 9 info warn [] waiting (λ m e. refl) refl refl refl
      refl refl

file_faults_example :
    (w : World ℕ (List Str)) × (log
        (surroundings (ok tt))
        1
        info
        (configure true file (str "log") start)
      ≡ some (raise fault, w))
unfolding find
file_faults_example =
    file_faults (surroundings (ok tt)) true (str "log") 1 info start (λ m e. refl) refl refl refl
      refl refl
