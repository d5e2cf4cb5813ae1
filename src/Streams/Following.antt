-- ===== src/Streams/Following.antt =====
-- The lines of a rank beside what the core tells the engine.
use vnv.Base.{ℕ, ◌≡◌, List, [], ◌∷◌, some, if◌then◌else◌, ◌==◌, ok, arith}
use vnv.Base.Int.{ℤ, pos, negsuc}
use vnv.Engine.{Event}
use vnv.Streams.{Files, CanWrite, Communicator, Node, Line, Writer, Manager, write_line, write}
use vnv.Streams.Callbacks.{started_node, ended_node}
use vnv.Streams.Calls.{Call}

-- The nodes with a number, the newest first: all but those that announce a communicator.
abbrev pub add_numbered : ℤ → Node → List Node → List Node
add_numbered (pos j) node nodes = node ∷ nodes
add_numbered (negsuc k) node nodes = nodes

abbrev pub numbered : List Line → List Node
numbered [] = []
numbered (l ∷ ls) = add_numbered l.jid l.node (numbered ls)

abbrev pub nodes_of : Manager → List Node
nodes_of s = numbered s.writer.lines

-- The communicator that an event is told on, where `current` was that of the one before.
abbrev pub comm_after : ℕ → Event → ℕ
comm_after current (Event.point_started comm p name type stage_id function line) = comm
comm_after current (Event.action_started comm p name stage) = comm
comm_after current _ = current

abbrev pub node_of : Event → Node
node_of (Event.point_started comm p name type stage_id function line) =
    started_node type name p comm stage_id
node_of (Event.point_ended name type stage_id) = ended_node type
node_of (Event.test_started p name internal uuid) = Node.test_started name p internal uuid
node_of (Event.test_finished result) = Node.test_finished result
node_of (Event.action_started comm p name stage) = Node.action_started name p stage
node_of (Event.action_ended stage) = Node.action_finished stage

-- The nodes of the events that are told on a communicator of which the process is the root.
abbrev pub told : (ℕ → ℕ) → ℕ → List Event → List Node
told rank_of current [] = []
told rank_of current (e ∷ events) =
    let rest = told rank_of (comm_after current e) events in
    if rank_of (comm_after current e) == 0 then node_of e ∷ rest else rest

-- The list reversed, in front of another.
abbrev pub onto : List Node → List Node → List Node
onto [] nodes = nodes
onto (n ∷ ns) nodes = onto ns (n ∷ nodes)

-- A call of the engine for an event; what the AllReduce yields is not part of the event.
abbrev pub Tells : Event → Call → Type 0
Tells (Event.point_started comm p name type stage_id function line) call =
    (c : Communicator) × (top : ℕ) × (c.unique_id ≡ comm)
    × (call ≡ Call.point_started c top p name type stage_id)
Tells (Event.point_ended name type stage_id) call = (top : ℕ) × (call ≡ Call.point_ended top type)
Tells (Event.test_started p name internal uuid) call = call ≡ Call.test_started p name internal uuid
Tells (Event.test_finished result) call = call ≡ Call.test_finished result
Tells (Event.action_started comm p name stage) call =
    (c : Communicator) × (top : ℕ) × (c.unique_id ≡ comm)
    × (call ≡ Call.action_started c top p name stage)
Tells (Event.action_ended stage) call = call ≡ Call.action_ended stage

abbrev pub AllTell : List Event → List Call → Type 0
AllTell [] [] = Unit
AllTell (e ∷ es) (call ∷ calls) = Tells e call × AllTell es calls
AllTell _ _ = ⊥

module _ (good : Files) where
  numbered-write_line :
      (id : ℕ) (node : Node) (j : ℕ) (w : Writer)
      → (write_line good id node (pos j) w).0 ≡ ok tt
      → numbered (write_line good id node (pos j) w).1.lines ≡ node ∷ numbered w.lines
  unfolding write_line
  numbered-write_line id node j w h = ground arith

  pub numbered-write :
      (c : Communicator) (node : Node) (s : Manager)
      → s.comm ≡ some c
      → (write good node s).0 ≡ ok tt
      → nodes_of (write good node s).1 ≡ node ∷ nodes_of s
  unfolding write
  numbered-write c node s e h = ground (arith, numbered-write_line c.unique_id node s.id s.writer)

module _ (rank_of : ℕ → ℕ) (good : Files) (all_good : CanWrite good) where
  -- What a callback leaves that tells a node on the communicator.
  abbrev Told : Communicator → Node → Manager → Manager → Type 0
  Told c node s t =
      (t.comm ≡ some c)
      × (nodes_of t ≡ (if rank_of c.unique_id == 0 then node ∷ nodes_of s else nodes_of s))

  -- Where a communicator is current, a call for an event leaves that of the event, and its node.
  abbrev ToldOf : ℕ → Event → Manager → Manager → Type 0
  ToldOf current e s t =
      (d : Communicator) × (t.comm ≡ some d)
      × (d.unique_id ≡ comm_after current e)
      × (nodes_of t
          ≡ (if rank_of (comm_after current e) == 0 then node_of e ∷ nodes_of s else nodes_of s))
