-- ===== src/Streams/Running.antt =====
-- Runs of calls on the engine.
use vnv.Base.{
  ℕ, ◌+◌, ◌≤◌, ◌≡◌, refl, sym, List, [], ◌∷◌, Option, none, some, Str, if◌then◌else◌, Bool-cases,
  inl, inr, ◌==◌, ==_iff, ok, arith, subst, Act, ◌>>◌, pure,
}
use vnv.Streams.{
  Files, CanWrite, Communicator, Node, log, Manager, start, write, write_at_root, sync_id, set_comm,
}
use vnv.Streams.Written.{IsWritten, IsWritten_mono}
use vnv.Streams.Callbacks.{
  started_node, ended_node, injection_point_started_call_back, injection_point_ended_call_back,
  write_stdout_info, test_started_call_back, test_finished_call_back, action_started_call_back,
  action_ended_call_back, workflow_callback, workflow_started_callback, workflow_ended_callback,
  workflow_updated_callback, unit_test_started_call_back, unit_test_finished_call_back,
  package_options_started_call_back, package_options_ended_call_back,
  initialization_started_call_back, initialization_ended_call_back, log_message, write_log,
  set_back, put, put_data_type, set_from_json,
}
use vnv.Streams.Calls.{Call, perform, run_calls}
use vnv.Streams.Soundness.{
  Goes, goes_on, IsOurs, IsSound, IsReady, Fits, Lands, write-Goes, sync_id-Goes, with_current,
  write_at_root-Goes, set_comm-Goes,
}

module _ (rank_of : ℕ → ℕ) (good : Files) (all_good : CanWrite good) where
  -- Code that keeps the state sound.
  abbrev pub Stays : Act Manager (Unit {0}) → Manager → Type 0
  Stays m s = Goes m s (IsSound rank_of)

  pub ready : {s : Manager} → IsSound rank_of s → IsReady rank_of s
  ready i = record { opened = i.opened; written = i.written }

  -- A callback that takes up a communicator and writes.
  taken_up :
      (c : Communicator) (top : Option ℕ) (k : Act Manager (Unit {0})) (s : Manager)
      → IsOurs rank_of c
      → Fits rank_of good all_good top s.id
      → IsReady rank_of s
      → ((t : Manager) → IsSound rank_of t → t.comm ≡ some c → Stays k t)
      → Stays (set_comm good c top >> k) s
  taken_up c top k s ours fits i h =
      goes_on (set_comm good c top) k s
        (λ t. IsSound rank_of t × (t.comm ≡ some c) × Lands rank_of good all_good top s.id t.id)
        (IsSound rank_of) (set_comm-Goes rank_of good all_good c top s ours fits i)
        (λ t q. h t q.0 q.1)

  written : (node : Node) (s : Manager) → IsSound rank_of s → Stays (write_at_root good node) s
  written node s i =
      let (done, (i', _, _)) = write_at_root-Goes rank_of good all_good node s i in (done, i')

  started :
      (c : Communicator) (top : ℕ) (node : Node) (s : Manager)
      → IsOurs rank_of c
      → s.id ≤ top
      → IsSound rank_of s
      → Stays (set_comm good c (some top) >> write_at_root good node) s
  started c top node s ours fits i =
      taken_up c (some top) (write_at_root good node) s ours fits (ready i)
        (λ t i' e. written node t i')

  written_by :
      (c : Communicator) (node : Node) (s : Manager)
      → s.comm ≡ some c
      → IsSound rank_of s
      → Stays (if c.rank == 0 then write good node else pure tt) s
  written_by c node s e i = elim (Bool-cases (c.rank == 0)) [
    | inl root ↦
        let (done, (i', _, _)) =
          write-Goes rank_of good all_good node s c e ((==_iff c.rank 0).0 root) i in
        rw root (done, i')
    | inr other ↦ rw other (refl, i)
  ]

  -- The part of Log behind its setting of the communicator.
  logged :
      (c : Communicator) (package_name : Str) (stage : ℕ) (level message : Str) (s : Manager)
      → s.comm ≡ some c
      → IsSound rank_of s
      → Stays (write_log good c.unique_id package_name stage level message) s
  logged c package_name stage level message s e i =
      let body : Communicator → Act Manager (Unit {0}) = λ c' s.
        if c'.rank == 0
        then write good (log package_name stage level message s.id c.unique_id)
            (record s { id = s.id + 1 })
        else (ok tt, s) in
      subst (λ p. (p.0 ≡ ok tt) × IsSound rank_of p.1)
        (sym (with_current rank_of good all_good c body s e))
        (elim (Bool-cases (c.rank == 0)) [
          | inl root ↦
              let s' : Manager = record s { id = s.id + 1 } in
              let i' : IsSound rank_of s' = record {
                current = i.current;
                opened = i.opened;
                written =
                    IsWritten_mono good rank_of all_good s.id (s.id + 1) s.writer (omega arith)
                      i.written;
              } in
              let (done, (i'', _, _)) =
                write-Goes rank_of good all_good
                  (log package_name stage level message s.id c.unique_id) s' c e
                  ((==_iff c.rank 0).0 root) i' in
              rw root (done, i'')
          | inr other ↦ rw other (refl, i)
        ])

  -- The end of Log, where a communicator was set before.
  set_back-Stays :
      (o : Option Communicator) (d : Communicator) (s : Manager)
      → o ≡ some d
      → IsOurs rank_of d
      → IsSound rank_of s
      → Stays (set_back good o) s
  set_back-Stays none d s e ours i = (refl, i)
  set_back-Stays (some c) d s e ours i =
      let same : d ≡ c = cc in
      let (done, (i', _, _)) =
        set_comm-Goes rank_of good all_good c none s (subst (IsOurs rank_of) same ours) tt
          (ready i) in
      (done, i')

  -- The communicator is one of this process, the AllReduce yields no less than the id that the
  -- process gave it, and where a callback is given a communicator that it does not take up, it
  -- is the current one; stdout is written on a communicator of which the process is the root.
  abbrev pub CallFits : Call → Manager → Type 0
  CallFits (Call.point_started c top p i type stage) s = IsOurs rank_of c × (s.id ≤ top)
  CallFits (Call.point_ended top type) s = s.id ≤ top
  CallFits (Call.stdout_read c out error) s = IsOurs rank_of c × (c.rank ≡ 0)
  CallFits (Call.action_started c top p name stage) s = IsOurs rank_of c × (s.id ≤ top)
  CallFits (Call.workflow_started c top p name i) s = IsOurs rank_of c × (s.id ≤ top)
  CallFits (Call.workflow_updated c p name i) s = s.comm ≡ some c
  CallFits (Call.workflow_ended c p name i) s = s.comm ≡ some c
  CallFits (Call.unit_test_started c top p name) s = IsOurs rank_of c × (s.id ≤ top)
  CallFits (Call.options_started c top p) s = IsOurs rank_of c × (s.id ≤ top)
  CallFits (Call.initialization_started c top p) s = IsOurs rank_of c × (s.id ≤ top)
  CallFits (Call.logged c top p stage level message) s = IsOurs rank_of c × (s.id ≤ top)
  CallFits _ s = Unit

  pub perform-Stays :
      (call : Call) (s : Manager)
      → CallFits call s
      → IsSound rank_of s
      → Stays (perform good call) s
  unfolding perform injection_point_started_call_back injection_point_ended_call_back
      write_stdout_info test_started_call_back test_finished_call_back action_started_call_back
      action_ended_call_back workflow_callback workflow_started_callback workflow_ended_callback
      workflow_updated_callback unit_test_started_call_back unit_test_finished_call_back
      package_options_started_call_back package_options_ended_call_back
      initialization_started_call_back initialization_ended_call_back log_message put put_data_type
  perform-Stays (Call.point_started c top p i type stage) s f w =
      started c top (started_node type i p c.unique_id stage) s f.0 f.1 w
  perform-Stays (Call.point_ended top type) s f w =
      let (done, ((w', _, _), _)) = sync_id-Goes rank_of good all_good top s f w in
      goes_on (sync_id good top) (write_at_root good (ended_node type)) s (IsSound rank_of)
        (IsSound rank_of) (done, w') (λ t i. written (ended_node type) t i)
  perform-Stays (Call.stdout_read c out error) s f w =
      taken_up c none (write good (Node.stdout c.unique_id out error)) s f.0 tt (ready w) λ t i e.
        let (done, (i', _, _)) =
          write-Goes rank_of good all_good (Node.stdout c.unique_id out error) t c e f.1 i in
        (done, i')
  perform-Stays (Call.test_started p name internal uuid) s f w =
      written (Node.test_started name p internal uuid) s w
  perform-Stays (Call.test_finished result) s f w = written (Node.test_finished result) s w
  perform-Stays (Call.action_started c top p name stage) s f w =
      started c top (Node.action_started name p stage) s f.0 f.1 w
  perform-Stays (Call.action_ended stage) s f w = written (Node.action_finished stage) s w
  perform-Stays (Call.workflow_started c top p name i) s f w =
      taken_up c (some top) _ s f.0 f.1 (ready w) (λ t i' e. written_by c _ t e i')
  perform-Stays (Call.workflow_updated c p name i) s f w = written_by c _ s f w
  perform-Stays (Call.workflow_ended c p name i) s f w = written_by c _ s f w
  perform-Stays (Call.unit_test_started c top p name) s f w =
      started c top (Node.unit_test_started name p) s f.0 f.1 w
  perform-Stays (Call.unit_test_finished results) s f w =
      written (Node.unit_test_finished results) s w
  perform-Stays (Call.options_started c top p) s f w =
      started c top (Node.package_options_started p) s f.0 f.1 w
  perform-Stays Call.options_ended s f w = written Node.package_options_finished s w
  perform-Stays (Call.initialization_started c top p) s f w =
      started c top (Node.initialization_started p) s f.0 f.1 w
  perform-Stays Call.initialization_ended s f w = written Node.initialization_ended s w
  perform-Stays (Call.logged c top p stage level message) s f w =
      let (d, e, ours, known) = w.current in
      goes_on (set_comm good c (some top) >> write_log good c.unique_id p stage level message)
        (set_back good s.comm) s (IsSound rank_of) (IsSound rank_of)
        (taken_up c (some top) (write_log good c.unique_id p stage level message) s f.0 f.1
          (ready w) (λ t i e. logged c p stage level message t e i))
        (λ t i. set_back-Stays s.comm d t e ours i)
  perform-Stays (Call.value_put name value m) s f w = written (Node.shape name value m) s w
  perform-Stays (Call.data_put name key m inner value) s f w =
      goes_on
        (write_at_root good (Node.data_type_started name key m)
          >> write_at_root good (Node.shape inner value []))
        (write_at_root good Node.data_type_ended) s (IsSound rank_of) (IsSound rank_of)
        (goes_on (write_at_root good (Node.data_type_started name key m))
          (write_at_root good (Node.shape inner value [])) s (IsSound rank_of) (IsSound rank_of)
          (written (Node.data_type_started name key m) s w)
          (λ t i. written (Node.shape inner value []) t i))
        (λ t i. written Node.data_type_ended t i)

  -- Each call fits where it is made.
  abbrev pub AllFit : List Call → Manager → Type 0
  AllFit [] s = Unit
  AllFit (call ∷ calls) s = CallFits call s × AllFit calls (perform good call s).1

  calls-Stays :
      (calls : List Call) (s : Manager)
      → AllFit calls s
      → IsSound rank_of s
      → Stays (run_calls good calls) s
  unfolding run_calls
  calls-Stays [] s f i = (refl, i)
  calls-Stays (call ∷ calls) s (f, fs) i =
      let (done, i') = perform-Stays call s f i in
      goes_on (perform good call) (run_calls good calls) s (λ t. IsSound rank_of t × AllFit calls t)
        (IsSound rank_of) (done, (i', fs)) (λ t q. calls-Stays calls t q.1 q.0)

  pub start-IsReady : IsReady rank_of start
  start-IsReady = record {
    opened = λ id h r. absurd (cc h);
    written = record {
      counted = tt;
      headed = tt;
      roots = tt;
      begun = λ id h. absurd (cc h);
      unused = λ id h. refl;
    };
  }

  -- The calls are the callbacks about points, tests, actions, workflows, unit tests, options,
  -- initialization and messages, stdout that was read, and the Put of a value or of a data type
  -- that puts one value. Where every file can be written to and every node printed, every
  -- communicator that is taken up is one of this process, every AllReduce yields no less than
  -- the id that the process gave it, updates and ends of workflows are told on the current
  -- communicator, and stdout on one of which the process is the root: setting the engine up on
  -- the world and then a sequence of such calls ends without an exception. Behind them every
  -- line is on a stream of which the process is the root, the numbers of all the lines grow in
  -- the order in which they were written and are below the next id, and every stream begins with
  -- the one line that announces its communicator.
  pub run_calls-Sound :
      (world : Communicator) (calls : List Call)
      → IsOurs rank_of world
      → AllFit calls (set_from_json good world start).1
      → let m = set_from_json good world >> run_calls good calls in
        ((m start).0 ≡ ok tt) × IsWritten rank_of (m start).1.id (m start).1.writer
  unfolding set_from_json
  run_calls-Sound world calls ours fits =
      let (set_up, (i, _, _)) =
        set_comm-Goes rank_of good all_good world none start ours tt start-IsReady in
      let (done, i') =
        goes_on (set_comm good world none) (run_calls good calls) start
          (λ t. IsSound rank_of t × AllFit calls t) (IsSound rank_of) (set_up, (i, fits))
          (λ t q. calls-Stays calls t q.1 q.0) in
      (done, i'.written)
