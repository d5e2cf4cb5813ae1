-- ===== src/Streams.antt =====
-- The stream engine: StreamManager of injection/include/plugins/engines/streamtemplate.h over the
-- writer JsonFileStream of injection/src/plugins/engines/json_file.cpp, as one rank runs them. The
-- files are the list of the lines written, the newest first, each with the id of its stream. What
-- an AllReduce hands to the rank is an argument of the call that waits for it.
pub mod Callbacks
pub mod Calls
pub mod Written
pub mod Soundness
pub mod Running
pub mod Following
pub mod Agreement
pub mod Fetching
pub mod Opening
pub mod Globals
mod Examples
pub mod Reports
use vnv.Base.{
  ◌≡◌, ℕ, ◌+◌, Bool, true, false, List, [], ◌∷◌, Option, none, some, Str, if◌then◌else◌, ◌==◌, any,
  Outcome, ok, raise, fault, vnv_exception, Act, pure, throw, ◌>>◌,
}
use vnv.Base.Dict.{Dict}
use vnv.Base.Int.{ℤ, pos, negsuc}
use vnv.Json.{Json}
use vnv.Engine.{ActionStage}

-- A communicator as the engine reads it; `world_ranks` is what getWorldRanks gathers.
pub record Communicator : Type 0 where
  pub unique_id : ℕ
  pub rank : ℕ
  pub world_ranks : List ℕ

-- A value that Put takes; a double is its bits.
pub data Value : Type 0 where
  double : ℕ → Value
  long : ℤ → Value
  bool : Bool → Value
  string : Str → Value
  json : Json → Value

abbrev pub Meta : Type 0
Meta = Dict Str Str

pub record UnitResult : Type 0 where
  pub name : Str
  pub description : Str
  pub result : Bool

pub data SupportedDataType : Type 0 where
  double_type long_type string_type json_type : SupportedDataType

-- A child of a global array: `dtype` and `sdt` are set or not.
pub record Child : Type 0 where
  pub name : Str
  pub shape : List ℕ
  pub value : List Value
  pub dtype : Option SupportedDataType
  pub sdt : Option SupportedDataType

pub data WorkflowStage : Type 0 where
  started updated finished : WorkflowStage

-- The JSON objects that the engine writes, by the value of their member `node`.
pub data Node : Type 0 where
  comm_info : (comm : ℕ) (comm_list : List ℕ) → Node
  shape : (name : Str) (value : Value) (m : Meta) → Node
  array_shape :
      (name : Str) (dtype : SupportedDataType) (value : List Value) (sizes : List ℕ) (m : Meta)
      → Node
  global_array :
      (name : Str) (key : ℕ) (sizes : List ℕ) (children : List (List Child)) (m : Meta) → Node
  data_type_started : (name : Str) (dtype : ℕ) (m : Meta) → Node
  data_type_ended : Node
  log : (package_name : Str) (stage : ℕ) (level message : Str) (name comm : ℕ) → Node
  final_time : (time : ℕ) → Node
  info :
      (world_size : ℕ) (spec prov : Json) (node_map : Dict ℕ (List ℕ)) (workflow job : Str) → Node
  file : (input : Bool) (package_name name reader filename : Str) (copied : Bool) → Node
  injection_point_started : (name package_name : Str) (comm : ℕ) (stage_id : Str) → Node
  injection_point_iter_started : (name package_name : Str) (comm : ℕ) (stage_id : Str) → Node
  injection_point_ended injection_point_iter_ended : Node
  stdout : (comm : ℕ) (value : Str) (error : Bool) → Node
  test_started : (name package_name : Str) (internal : Bool) (uuid : ℤ) → Node
  test_finished : (result : Bool) → Node
  action_started : (name package_name : Str) (stage : ActionStage) → Node
  action_finished : (stage : ActionStage) → Node
  workflow : (stage : WorkflowStage) (name package_name : Str) (info : Json) → Node
  unit_test_started : (name package_name : Str) → Node
  unit_test_finished : (results : List UnitResult) → Node
  package_options_started : (package_name : Str) → Node
  package_options_finished : Node
  initialization_started : (package_name : Str) → Node
  initialization_ended : Node
  fetch : (schema : Json) (expires : ℕ) (message : Str) (jid id : ℕ) → Node
  fetch_success : Node
  done : (time : ℕ) → Node

pub record Line : Type 0 where
  pub stream : ℕ
  pub jid : ℤ
  pub node : Node

-- JsonFileStream: the streams that are open, and what has been written.
pub record Writer : Type 0 where
  pub streams : List ℕ
  pub lines : List Line

pub record Manager : Type 0 where
  pub comm : Option Communicator
  pub commids : List ℕ
  pub id : ℕ
  pub vnv_time_stamp : ℕ
  pub recv : ℕ
  pub writer : Writer

abbrev pub start : Manager
start = record {
  comm = none;
  commids = [];
  id = 0;
  vnv_time_stamp = 0;
  recv = 0;
  writer = record { streams = []; lines = [] };
}

abbrev pub holds : ℕ → List ℕ → Bool
holds a l = any (λ b. a == b) l

-- What it comes to when a node is written to the file of a stream: it is written, or the stream is
-- not good, which throws, or dump() throws, as for a string that is not UTF-8. What such a line
-- leaves in the file is not modelled.
abbrev pub Files : Type 0
Files = ℕ → Node → Outcome (Unit {0})

-- Every file can be written to, and every node printed.
abbrev pub CanWrite : Files → Type 0
CanWrite good = (id : ℕ) (node : Node) → good id node ≡ ok tt

module _ (good : Files) where
  pub write_line : ℕ → Node → ℤ → Act Writer (Unit {0})
  write_line id node jid w =
      if holds id w.streams
      then elim (good id node) [
        | ok _ ↦
            (ok tt, record w { lines = record { stream = id; jid = jid; node = node } ∷ w.lines })
        | raise e ↦ (raise e, w)
      ]
      else (raise vnv_exception, w)

  pub new_comm : ℕ → Node → Act Writer (Unit {0})
  unfolding write_line
  new_comm id node w =
      if holds id w.streams
      then (ok tt, w)
      else write_line id node (negsuc 0) (record w { streams = id ∷ w.streams })

  -- The loop over the streams in JsonFileStream::finalize: -1204 is the id of its lines.
  pub close_streams : ℕ → List ℕ → Writer → Writer
  close_streams time [] w = w
  close_streams time (id ∷ ids) w = close_streams time ids (elim (good id (done time)) [
    | ok _ ↦ record w {
      lines = record { stream = id; jid = negsuc 1203; node = done time } ∷ w.lines;
    }
    | raise e ↦ w
  ])

  -- What the manager calls on its stream.
  abbrev pub on_writer : Act Writer (Unit {0}) → Act Manager (Unit {0})
  on_writer m s = let (r, w) = m s.writer in (r, record s { writer = w })

  -- `comm->`, which is a null pointer until a communicator is set.
  abbrev pub with_comm : (Communicator → Act Manager (Unit {0})) → Act Manager (Unit {0})
  with_comm f s = elim s.comm [ none ↦ (raise fault, s) | some c ↦ f c s ]

  -- The id is counted on before the line is written.
  pub write : Node → Act Manager (Unit {0})
  unfolding write_line
  write node =
      with_comm
        λ c s. on_writer (write_line c.unique_id node (pos s.id)) (record s { id = s.id + 1 })

  -- `if (comm->Rank() == getRoot()) { ... write(j); }`
  pub write_at_root : Node → Act Manager (Unit {0})
  unfolding write
  write_at_root node = with_comm λ c. if c.rank == 0 then write node else pure tt

  -- `top` is what the AllReduce of the ids with MAX hands over; what is put into vnvTimeStamp
  -- before it is overwritten behind it.
  pub get_next_id : ℕ → Manager → Manager
  get_next_id top s = record s { recv = top; vnv_time_stamp = top + 1 }

  pub sync_id : ℕ → Act Manager (Unit {0})
  unfolding get_next_id
  sync_id top = with_comm λ c s. let s' = get_next_id top s in (ok tt, record s' { id = s'.recv })

  abbrev pub remember : ℕ → Act Manager (Unit {0})
  remember id s = (ok tt, record s { commids = id ∷ s.commids })

  abbrev pub open_stream : Communicator → Act Manager (Unit {0})
  open_stream c =
      if c.rank == 0
      then on_writer (new_comm c.unique_id (comm_info c.unique_id c.world_ranks))
      else pure tt

  -- The part of setComm for a communicator that the engine has not met.
  pub announce : Communicator → Act Manager (Unit {0})
  unfolding new_comm
  announce c s =
      if holds c.unique_id s.commids then (ok tt, s) else (open_stream c >> remember c.unique_id) s

  -- `none` stands for syncIds == false.
  abbrev pub sync_ids : Option ℕ → Act Manager (Unit {0})
  sync_ids none = pure tt
  sync_ids (some top) = sync_id top

  pub set_comm : Communicator → Option ℕ → Act Manager (Unit {0})
  unfolding announce sync_id
  set_comm c top s = (announce c >> sync_ids top) (record s { comm = some c })
