-- ===== src/Streams/Agreement.antt =====
-- The ids of several ranks that take up a communicator together: each gives the AllReduce its id,
-- and each gets the greatest.
use vnv.Base.{
  ℕ, ◌≤◌, ◌≡◌, sym, ap, ◌∙◌, List, [], ◌∷◌, some, Str, if◌then◌else◌, ltb, All, ok, arith, ◌==◌,
  ==_iff, subst, Act, pure,
}
use vnv.Base.Int.{pos}
use vnv.Engine.{InjectionPointType}
use vnv.Streams.{
  Files, CanWrite, Communicator, Node, Line, Manager, write_line, write, write_at_root, set_comm,
}
use vnv.Streams.Written.{Counted, Counted-mono}
use vnv.Streams.Callbacks.{started_node, injection_point_started_call_back}
use vnv.Streams.Soundness.{Goes, goes_on, IsOurs, IsSound, set_comm-Goes, with_current, write-Goes}
use vnv.Streams.Running.{ready}

-- What the AllReduce with MAX yields.
abbrev pub greatest : List Manager → ℕ
greatest [] = 0
greatest (s ∷ ranks) = let rest = greatest ranks in if ltb rest s.id then s.id else rest

greatest_le : (ranks : List Manager) → All (λ s. s.id ≤ greatest ranks) ranks
greatest_le [] = tt
greatest_le (s ∷ ranks) = (ground arith, weaken ranks (greatest_le ranks))
  where
    weaken :
        (l : List Manager)
        → All (λ t. t.id ≤ greatest ranks) l
        → All (λ t. t.id ≤ greatest (s ∷ ranks)) l
    weaken [] a = tt
    weaken (t ∷ l) (h, a) = (ground arith, weaken l a)

module _ (good : Files) (all_good : CanWrite good) where
  All-below :
      (ranks l : List Manager)
      → All (λ s. s.id ≤ greatest ranks) l
      → All (λ s. Counted s.id s.writer.lines) l
      → All (λ s. Counted (greatest ranks) s.writer.lines) l
  All-below ranks [] a b = tt
  All-below ranks (s ∷ l) (h, a) (c, b) =
      (Counted-mono s.id (greatest ranks) s.writer.lines h c, All-below ranks l a b)

  line_written :
      (c : Communicator) (node : Node) (s : Manager)
      → s.comm ≡ some c
      → (write good node s).0 ≡ ok tt
      → (write good node s).1.writer.lines
        ≡ record { stream = c.unique_id; jid = pos s.id; node = node } ∷ s.writer.lines
  unfolding write write_line
  line_written c node s e h = ground arith

  root_line :
      (rank_of : ℕ → ℕ) (c : Communicator) (node : Node) (top : ℕ) (t : Manager)
      → c.rank ≡ 0
      → IsSound rank_of t
      → t.comm ≡ some c
      → t.id ≡ top
      → Goes (write_at_root good node) t λ u.
        (before : List Line) × (u.writer.lines
          ≡ record { stream = c.unique_id; jid = pos top; node = node } ∷ before)
        × Counted top before
  unfolding write_at_root
  root_line rank_of c node top t root i e at =
      let body : Communicator → Act Manager (Unit {0}) =
        λ c. if c.rank == 0 then write good node else pure tt in
      let (done, after) = write-Goes rank_of good all_good node t c e root i in
      subst
        (λ p.
          (p.0 ≡ ok tt)
          × ((before : List Line) × (p.1.writer.lines
                ≡ record { stream = c.unique_id; jid = pos top; node = node } ∷ before)
              × Counted top before))
        (sym (with_current rank_of good all_good c body t e))
        (rw ((==_iff c.rank 0).1 root) (
          done,
          (
            t.writer.lines,
            line_written c node t e done
                ∙ ap
                    (λ n.
                      record { stream = c.unique_id; jid = pos n; node = node } ∷ t.writer.lines)
                    at,
            subst (λ n. Counted n t.writer.lines) at i.written.counted,
          ),
        ))

  -- Every file can be written to and every node printed, and ranks of which each has written
  -- lines with numbers below its next id take up a communicator together, of which one is the
  -- root: that rank, which has opened a stream for each communicator that it took up and is the
  -- root of, whose lines lie on streams of which it is the root, each begun by the announcement
  -- of its communicator, with numbers that grow and are below its next id, and whose current
  -- communicator is one that it took up, is told the start of a point. This ends without an
  -- exception, and leaves the node of the point as a line on the stream of the communicator
  -- whose number is greater than that of every line that any of the ranks had written.
  pub point_started_orders :
      (rank_of : ℕ → ℕ) (root : Manager) (others : List Manager) (c : Communicator)
      (package_name id : Str) (type : InjectionPointType) (stage_val : Str)
      → IsOurs rank_of c
      → c.rank ≡ 0
      → IsSound rank_of root
      → All (λ s. Counted s.id s.writer.lines) others
      → let top = greatest (root ∷ others) in
        let m = injection_point_started_call_back good c top package_name id type stage_val in
        ((m root).0 ≡ ok tt)
        × ((before : List Line) × ((m root).1.writer.lines
              ≡ record {
                stream = c.unique_id;
                jid = pos top;
                node = started_node type id package_name c.unique_id stage_val;
              }
                ∷ before)
            × Counted top before)
        × All (λ s. Counted top s.writer.lines) (root ∷ others)
  unfolding injection_point_started_call_back write_at_root
  point_started_orders rank_of root others c package_name id type stage_val ours at_root i counted =
      let top = greatest (root ∷ others) in
      let node : Node = started_node type id package_name c.unique_id stage_val in
      let (le, les) = greatest_le (root ∷ others) in
      let (done, known) =
        goes_on (set_comm good c (some top)) (write_at_root good node) root
          (λ t. IsSound rank_of t × (t.comm ≡ some c) × (t.id ≡ top))
          (λ t.
            (before : List Line) × (t.writer.lines
              ≡ record { stream = c.unique_id; jid = pos top; node = node } ∷ before)
            × Counted top before)
          (set_comm-Goes rank_of good all_good c (some top) root ours le
            (ready rank_of good all_good i))
          (λ t q. root_line rank_of c node top t at_root q.0 q.1 q.2) in
      (
        done,
        known,
        All-below (root ∷ others) (root ∷ others) (le, les) (i.written.counted, counted),
      )
