-- ===== src/Streams/Written.antt =====
-- What holds of the lines that a rank has written: their numbers, and how each stream begins.
use vnv.Base.{
  ℕ, suc, ◌≤◌, ◌<◌, ◌≡◌, refl, sym, ap, ◌∙◌, Bool, true, false, ◌&&◌, List, [], ◌∷◌, any, All, ok,
  arith, Bool-cases, inl, inr, ◌==◌, ==_iff,
}
use vnv.Base.Int.{ℤ, pos, negsuc}
use vnv.Streams.{Files, CanWrite, Node, comm_info, Line, Writer, holds, write_line, new_comm}

abbrev pub in_stream : ℕ → Line → Bool
in_stream id l = id == l.stream

-- The line that announces the communicator of its stream.
abbrev pub is_head : ℕ → Line → Bool
is_head id l = id == l.stream && names_comm l.node
  where
    names_comm : Node → Bool
    names_comm (comm_info comm ranks) = id == comm
    names_comm _ = false

abbrev pub IsBelow : ℤ → ℕ → Type 0
IsBelow (pos j) n = j < n
IsBelow (negsuc k) n = Unit

abbrev pub next_bound : ℤ → ℕ → ℕ
next_bound (pos j) n = j
next_bound (negsuc k) n = n

-- From the newest line on, the numbers grow less, from below `n`; the lines at the head of a
-- stream have none.
abbrev pub Counted : ℕ → List Line → Type 0
Counted n [] = Unit
Counted n (l ∷ ls) = IsBelow l.jid n × Counted (next_bound l.jid n) ls

-- The lines with a number stand behind the head of their stream, and a head stands before all
-- other lines of its stream.
abbrev pub IsPlaced : ℤ → Line → List Line → Type 0
IsPlaced (pos j) l ls = any (is_head l.stream) ls ≡ true
IsPlaced (negsuc k) l ls = (any (in_stream l.stream) ls ≡ false) × (is_head l.stream l ≡ true)

abbrev pub Headed : List Line → Type 0
Headed [] = Unit
Headed (l ∷ ls) = IsPlaced l.jid l ls × Headed ls

pub record IsWritten (rank_of : ℕ → ℕ) (n : ℕ) (w : Writer) : Type 0 where
  pub counted : Counted n w.lines
  pub headed : Headed w.lines
  pub roots : All (λ l. rank_of l.stream ≡ 0) w.lines
  pub begun : (id : ℕ) → holds id w.streams ≡ true → any (is_head id) w.lines ≡ true
  pub unused : (id : ℕ) → holds id w.streams ≡ false → any (in_stream id) w.lines ≡ false

IsBelow-mono : (j : ℤ) (n m : ℕ) → n ≤ m → IsBelow j n → IsBelow j m
IsBelow-mono (pos j) n m h b = omega arith
IsBelow-mono (negsuc k) n m h b = tt

next_bound_mono : (j : ℤ) (n m : ℕ) → n ≤ m → next_bound j n ≤ next_bound j m
next_bound_mono (pos j) n m h = omega arith
next_bound_mono (negsuc k) n m h = h

pub Counted-mono : (n m : ℕ) (ls : List Line) → n ≤ m → Counted n ls → Counted m ls
Counted-mono n m [] h c = tt
Counted-mono n m (l ∷ ls) h c = (
  IsBelow-mono l.jid n m h c.0,
  Counted-mono (next_bound l.jid n) (next_bound l.jid m) ls (next_bound_mono l.jid n m h) c.1,
)

pub streams-write_line :
    (good : Files) (id : ℕ) (node : Node) (jid : ℤ) (w : Writer)
    → (write_line good id node jid w).1.streams ≡ w.streams
unfolding write_line
streams-write_line good id node jid w = ground arith

module _ (good : Files) (rank_of : ℕ → ℕ) (all_good : CanWrite good) where
  pub IsWritten_mono :
      (n m : ℕ) (w : Writer) → n ≤ m → IsWritten rank_of n w → IsWritten rank_of m w
  IsWritten_mono n m w h i = record {
    counted = Counted-mono n m w.lines h i.counted;
    headed = i.headed;
    roots = i.roots;
    begun = i.begun;
    unused = i.unused;
  }

  -- A line with the next number, on a stream that is open, at its root.
  pub write_line-IsWritten :
      (id : ℕ) (node : Node) (j : ℕ) (w : Writer)
      → holds id w.streams ≡ true
      → rank_of id ≡ 0
      → IsWritten rank_of j w
      → ((write_line good id node (pos j) w).0 ≡ ok tt)
        × IsWritten rank_of (suc j) (write_line good id node (pos j) w).1
  unfolding write_line
  write_line-IsWritten id node j w is_open root i =
      rw (is_open, all_good id node)
        (
          refl,
          record {
            counted = (omega arith, i.counted);
            headed = (i.begun id is_open, i.headed);
            roots = (root, i.roots);
            begun = λ a h. ground (arith, i.begun a h);
            unused = λ a h. elim (Bool-cases (a == id)) [
              | inl e ↦
                  absurd
                    (cc (sym is_open ∙ ap (λ b. holds b w.streams) (sym ((==_iff a id).0 e)) ∙ h))
              | inr e ↦ rw e (i.unused a h)
            ];
          },
        )

  -- The head of a stream that is opened.
  pub new_comm-IsWritten :
      (id n : ℕ) (ranks : List ℕ) (w : Writer)
      → rank_of id ≡ 0
      → IsWritten rank_of n w
      → ((new_comm good id (comm_info id ranks) w).0 ≡ ok tt)
        × IsWritten rank_of n (new_comm good id (comm_info id ranks) w).1
        × (holds id (new_comm good id (comm_info id ranks) w).1.streams ≡ true)
        × ((a : ℕ)
            → holds a w.streams ≡ true
            → holds a (new_comm good id (comm_info id ranks) w).1.streams ≡ true)
  unfolding new_comm write_line
  new_comm-IsWritten id n ranks w root i = elim (Bool-cases (holds id w.streams)) [
    | inl there ↦ rw there (refl, i, there, λ a h. h)
    | inr missing ↦
        rw (missing, (==_iff id id).1 refl, all_good id (comm_info id ranks))
          (
            refl,
            record {
              counted = (tt, i.counted);
              headed = ((i.unused id missing, ground (arith, ==_iff id id)), i.headed);
              roots = (root, i.roots);
              begun = λ a h. ground (arith, ==_iff a id, i.begun a);
              unused = λ a h. ground (arith, ==_iff a id, i.unused a);
            },
            rw ((==_iff id id).1 refl) refl,
            λ a h. ground (arith, h),
          )
  ]
