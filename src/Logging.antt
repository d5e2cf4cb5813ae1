-- ===== src/Logging.antt =====
-- The logger of injection/include/base/Logger.h and injection/src/base/Logger.cpp, over a world that has
-- the output engine and the lines written so far. What an engine does with a message, and what
-- a communicator says of itself, come from outside.
pub mod Queue
pub mod Deferral
pub mod Switches
mod Examples
use vnv.Base.{
  ℕ, zero, suc, ◌+◌, ◌/◌, ◌%◌, Bool, true, false, not, ◌&&◌, ◌||◌, List, [], ◌∷◌, ◌++◌, Option,
  none, some, Outcome, ok, raise, Exn, vnv_exception, standard, text, fault, Act, ◌>>=◌, ◌>>◌, pure,
  throw, Str, str, str_key, catch_standard, if◌then◌else◌, ◌==◌, ltb,
}
use vnv.Base.Int.{ℤ, pos, negsuc, pos_part, ◌+ℤ◌}
use vnv.Base.Dict.{Dict, find, assign, contains}
use vnv.Testing.{key}

pub data LogWriteType : Type 0 where
  file stdout stderr off : LogWriteType

-- What the pointer to the stream holds. `dangling` is the address of a stream that is gone, and
-- of a pointer that nothing has set.
pub data Stream : Type 0 where
  cout cerr dangling : Stream

pub record Message (C : Type 0) : Type 0 where
  pub package_name : Str
  pub stage : ℤ
  pub level : Str
  pub format : Str
  pub comm : C

pub record Logger (C : Type 0) : Type 0 where
  pub log_levels_to_color : Dict Str Str
  pub logs : Dict Str Bool
  pub saved_logs : List (Message C)
  pub engine : Bool
  pub write_type : LogWriteType
  pub stage : ℤ
  pub stream : Stream
  pub locked : Bool
  pub package_black_list : Dict Str (Unit {0})
  pub out_file_name : Str

pub record World (C E : Type 0) : Type 0 where
  pub logger : Logger C
  -- OutputEngineStore::initialized, and the engine.
  pub initialized : Bool
  pub engine_state : E
  -- RunTime::useAsciiColors
  pub ascii_colors : Bool
  pub written : List (Stream × Str)

abbrev pub reset_color : Str
reset_color = 27 ∷ str "[0m"

abbrev green : Str
green = 27 ∷ str "[32m"

abbrev blue : Str
blue = 27 ∷ str "[34m"

abbrev red : Str
red = 27 ∷ str "[31m"

abbrev pub is_dangling : Stream → Bool
is_dangling dangling = true
is_dangling s = false

-- The stream of a file is a local variable, whose address outlives it.
abbrev pub stream_of : LogWriteType → Stream → Stream
stream_of stdout s = cout
stream_of stderr s = cerr
stream_of file s = dangling
stream_of off s = s

module _ {A : Type 0} where
  abbrev pub behind_first : List A → List A
  behind_first [] = []
  behind_first (m ∷ q) = q

module _ {C : Type 0} where
  abbrev pub register_log_level : Str → Str → Str → Bool → Logger C → Logger C
  register_log_level package_name name color on l = record l {
    log_levels_to_color = assign (key package_name name) color l.log_levels_to_color;
    logs = assign (key package_name name) on l.logs;
  }

  abbrev pub set_log_level : Str → Bool → Logger C → Logger C
  set_log_level level on l = record l { logs = assign level on l.logs }

  abbrev pub up : Logger C → Logger C
  up l = record l { stage = l.stage +ℤ pos 1 }

  abbrev pub down : Logger C → Logger C
  down l = record l { stage = l.stage +ℤ negsuc 0 }

  abbrev pub add_to_black_list : Str → Logger C → Logger C
  add_to_black_list name l = record l { package_black_list = assign name tt l.package_black_list }

  -- `ltype` and `fileptr` have no initial value.
  abbrev pub new_logger : LogWriteType → Logger C
  new_logger t = register_log_level (str "VNV") (str "ERROR") red true (
      register_log_level (str "VNV") (str "WARN") blue true (
        register_log_level (str "VNV") (str "DEBUG") green false
          (register_log_level (str "VNV") (str "INFO") green false empty)))
    where
      empty : Logger C
      empty = record {
        log_levels_to_color = [];
        logs = [];
        saved_logs = [];
        engine = false;
        write_type = t;
        stage = pos 0;
        stream = dangling;
        locked = false;
        package_black_list = [];
        out_file_name = [];
      }

  -- Configuring a second time closes the stream of the first time through the pointer.
  abbrev pub set_log : Bool → LogWriteType → Str → Act (Logger C) (Unit {0})
  set_log use_engine t filename l =
      if l.locked && is_dangling l.stream
      then (raise fault, record l { out_file_name = filename })
      else (
        ok tt,
        record l {
          out_file_name = filename;
          locked = true;
          write_type = t;
          engine = use_engine;
          stream = stream_of t l.stream;
        },
      )

abbrev pub get_indent : ℕ → Str
get_indent zero = []
get_indent (suc n) = str "----" ++ get_indent n

module _ {C E : Type 0} where
  abbrev pub log_level_to_color : Str → Str → World C E → Str
  log_level_to_color level message w =
      if w.ascii_colors
      then elim (find level w.logger.log_levels_to_color) [
        | none ↦ message
        | some color ↦ color ++ message ++ reset_color
      ]
      else message

  abbrev pub put_line : Str → Act (World C E) (Unit {0})
  put_line line w = elim w.logger.stream [
    | dangling ↦ (raise fault, w)
    | s ↦ (ok tt, record w { written = w.written ++ (s, line) ∷ [] })
  ]

  abbrev pub push : Message C → Act (World C E) (Unit {0})
  push m w = (
    ok tt,
    record w { logger = record (w.logger) { saved_logs = w.logger.saved_logs ++ m ∷ [] } },
  )

  abbrev pub pop : World C E → World C E
  pop w = record w { logger = record (w.logger) { saved_logs = behind_first w.logger.saved_logs } }

  -- The logger is not configured, or its engine is not.
  abbrev pub held : World C E → Bool
  held w = not w.logger.locked || (w.logger.engine && not w.initialized)

  -- The same text logged now: the depth is that of the logger, whatever was saved with it.
  abbrev pub at_stage : Message C → World C E → Message C
  at_stage m w = record m { stage = w.logger.stage }

-- How a communicator and an engine take part.
pub record Surroundings (C E : Type 0) : Type 0 where
  pub rank : C → ℕ
  -- `uniqueId()`, as a stream writes it.
  pub unique_id_text : C → Str
  pub engine_log : Message C → Act E (Unit {0})

module _ {C E : Type 0} (u : Surroundings C E) where
  abbrev pub line_of : Message C → Str
  line_of m =
      get_indent (pos_part m.stage)
      ++ str "["
      ++ key m.package_name m.level
      ++ str "](Comm: "
      ++ u.unique_id_text m.comm
      ++ str "): "
      ++ m.format

  abbrev pub line_text : Message C → World C E → Str
  line_text m w = elim w.logger.write_type [
    | file ↦ line_of m
    | t ↦ log_level_to_color (key m.package_name m.level) (line_of m) w
  ]

  abbrev pub write_to_file : Message C → Act (World C E) (Unit {0})
  write_to_file m w = elim w.logger.write_type [
    | off ↦ (ok tt, w)
    | t ↦ if u.rank m.comm == 0 then put_line (line_text m w) w else (ok tt, w)
  ]

  -- `eng->Log`, on the part of the world that is the engine's.
  abbrev pub call_engine : Message C → Act (World C E) (Unit {0})
  call_engine m w = let (r, e) = u.engine_log m w.engine_state in (r, record w { engine_state = e })

  abbrev pub tell_engine : Message C → Act (World C E) (Unit {0})
  tell_engine m w =
      if w.logger.engine then catch_standard (call_engine m) (push m) w else (ok tt, w)

  -- From the black list on. The switch of the level is looked up, and nothing is done with it.
  abbrev pub deliver : Message C → Act (World C E) (Unit {0})
  deliver m w =
      if contains m.package_name w.logger.package_black_list
      then (ok tt, w)
      else (tell_engine m >> write_to_file m) w

  -- `log` of a message that is taken from the queue.
  unfoldable pub log_saved : Message C → Act (World C E) (Unit {0})
  log_saved m w = if held w then push (at_stage m w) w else deliver (at_stage m w) w

  -- The loop over the saved messages, on fuel: `none` is a loop that goes on.
  unfoldable pub flush : ℕ → World C E → Option (Outcome (Unit {0}) × World C E)
  flush zero w = elim w.logger.saved_logs [ [] ↦ some (ok tt, w) | m ∷ q ↦ none ]
  flush (suc n) w = elim w.logger.saved_logs [
    | [] ↦ some (ok tt, w)
    | m ∷ q ↦
        let (r, w') = log_saved m w in
        elim r [ ok t ↦ flush n (pop w') | raise e ↦ some (raise e, w') ]
  ]

  abbrev pub deliver_after :
      Message C → Option (Outcome (Unit {0}) × World C E) → Option (Outcome (Unit {0}) × World C E)
  deliver_after m none = none
  deliver_after m (some (raise e, w)) = some (raise e, w)
  deliver_after m (some (ok t, w)) = some (deliver (at_stage m w) w)

  -- `log` of a new message.
  unfoldable pub log : ℕ → Message C → World C E → Option (Outcome (Unit {0}) × World C E)
  log fuel m w = if held w then some (push (at_stage m w) w) else deliver_after m (flush fuel w)
