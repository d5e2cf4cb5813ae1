-- ===== src/UnitTests/Ranks.antt =====
-- Who runs what: the ranks of a placement run it in the same batch.
use vnv.Base.{
  ℕ, zero, suc, ◌+◌, ◌<◌, ◌≤◌, ◌≡◌, refl, ap, subst, ◌∙◌, List, [], ◌∷◌, Option, some, arith,
  get_elem?, ltb, leb, Bool-cases, inl, inr,
}
use vnv.UnitTests.{
  UnitTest, Placement, Sharing, begin_sharing, rewind, smallest_left, claimed, place, flush,
  at_iterator, turn, turns,
}

-- A placement holds its rank and lies below the buffer.
pub record IsBounded (size rank : ℕ) (p : Sharing) : Type 0 where
  pub buffer : p.current_buffer ≤ size
  pub inside :
      (x : Placement)
      → p.mine ≡ some x
      → (x.start ≤ rank) × (rank < x.stop) × (x.stop ≤ p.current_buffer)
  pub ran :
      (i : ℕ) (x : Placement)
      → get_elem? p.batches i ≡ some (some x)
      → (x.start ≤ rank) × (rank < x.stop) × (x.stop ≤ size)

place-IsBounded :
    (size rank : ℕ) (t : UnitTest) (passed rest : List UnitTest) (p : Sharing)
    → IsBounded size rank p
    → IsBounded size rank (place size rank t passed rest p)
place-IsBounded size rank t passed rest p h = record {
  buffer = ground (arith, h.buffer);
  inside = λ x e. ground (arith, h.buffer, h.inside x);
  ran = λ i x e. ground (arith, h.ran i x);
}

flush-IsBounded :
    (size rank : ℕ) (p : Sharing) → IsBounded size rank p → IsBounded size rank (flush size rank p)
flush-IsBounded size rank p h =
    elim (Bool-cases (ltb size (p.current_buffer + smallest_left size p.passed p.left))) [
      | inl full ↦
          rw full (record { buffer = ground arith; inside = λ x e. cc; ran = λ i x e. added i x e })
      | inr room ↦ rw room h
    ]
  where
    added :
        (i : ℕ) (x : Placement)
        → get_elem? (p.mine ∷ p.batches) i ≡ some (some x)
        → (x.start ≤ rank) × (rank < x.stop) × (x.stop ≤ size)
    added zero x e = let (lo, hi, top) = h.inside x (cc) in (lo, hi, omega (arith, top, h.buffer))
    added (suc i) x e = h.ran i x e

module _ (size rank : ℕ) where
  at_iterator-IsBounded :
      (l : List UnitTest × List UnitTest) (p : Sharing)
      → IsBounded size rank p
      → IsBounded size rank (at_iterator size rank l p)
  at_iterator-IsBounded (passed, []) p h = h
  at_iterator-IsBounded (passed, t ∷ rest) p h =
      flush-IsBounded size rank (place size rank t passed rest p)
        (place-IsBounded size rank t passed rest p h)

  begin-IsBounded : (tests : List UnitTest) → IsBounded size rank (begin_sharing tests)
  begin-IsBounded tests = record { buffer = omega arith; inside = λ y e. cc; ran = λ i y e. cc }

  turns-IsBounded :
      (n : ℕ) (p : Sharing) → IsBounded size rank p → IsBounded size rank (turns size rank n p)
  unfolding turns turn
  turns-IsBounded zero p h = h
  turns-IsBounded (suc n) p h =
      turns-IsBounded n (turn size rank p) (at_iterator-IsBounded (rewind p.passed p.left) p h)

  -- After any number of turns, whatever a rank ran in a batch stood on a range of ranks of the
  -- communicator that holds the rank.
  pub turns_inside :
      (tests : List UnitTest) (n i : ℕ) (x : Placement)
      → get_elem? (turns size rank n (begin_sharing tests)).batches i ≡ some (some x)
      → (x.start ≤ rank) × (rank < x.stop) × (x.stop ≤ size)
  turns_inside tests n i x e =
      (turns-IsBounded n (begin_sharing tests) (begin-IsBounded tests)).ran i x e

-- Where the ranks of a placement are concerned, `b` is what `a` is.
abbrev pub Matches : ℕ → Option Placement → Option Placement → Type 0
Matches rank a b = (x : Placement) → a ≡ some x → x.start ≤ rank → rank < x.stop → b ≡ some x

-- Two ranks have the same variables but for what is theirs.
pub record Agrees (rank' : ℕ) (p q : Sharing) : Type 0 where
  pub passed : q.passed ≡ p.passed
  pub left : q.left ≡ p.left
  pub buffer : q.current_buffer ≡ p.current_buffer
  pub mine : Matches rank' p.mine q.mine
  pub batches :
      (i : ℕ) (a : Option Placement)
      → get_elem? p.batches i ≡ some a
      → (b : Option Placement) × (get_elem? q.batches i ≡ some b) × Matches rank' a b

module _ (size rank rank' : ℕ) where
  claimed-Matches :
      (buffer : ℕ) (t : UnitTest) (a b : Option Placement)
      → ((x : Placement) → a ≡ some x → x.stop ≤ buffer)
      → Matches rank' a b
      → Matches rank' (claimed size rank buffer t a) (claimed size rank' buffer t b)
  claimed-Matches buffer t a b below h x e lo hi = ground (arith, below x, h x)

  place-Agrees :
      (t : UnitTest) (passed rest : List UnitTest) (p q : Sharing)
      → IsBounded size rank p
      → Agrees rank' p q
      → Agrees rank' (place size rank t passed rest p) (place size rank' t passed rest q)
  place-Agrees t passed rest p q h g = elim (Bool-cases (ltb size t.cores)) [
    | inl large ↦ rw large (record {
      passed = refl;
      left = refl;
      buffer = g.buffer;
      mine = g.mine;
      batches = g.batches;
    })
    | inr other ↦ elim (Bool-cases (leb (p.current_buffer + t.cores) size)) [
      | inl fits ↦
          rw (g.buffer, other, fits)
            (record {
              passed = refl;
              left = refl;
              buffer = refl;
              mine =
                  claimed-Matches p.current_buffer t p.mine q.mine (λ x e. (h.inside x e).2) g.mine;
              batches = g.batches;
            })
      | inr full ↦
          rw (g.buffer, other, full)
            (record {
              passed = refl;
              left = refl;
              buffer = refl;
              mine = g.mine;
              batches = g.batches;
            })
    ]
  ]

  flush-Agrees :
      (p q : Sharing) → Agrees rank' p q → Agrees rank' (flush size rank p) (flush size rank' q)
  flush-Agrees p q g =
      elim (Bool-cases (ltb size (p.current_buffer + smallest_left size p.passed p.left))) [
        | inl full ↦
            rw (g.passed, g.left, g.buffer, full)
              (record {
                passed = refl;
                left = refl;
                buffer = refl;
                mine = λ x e. cc;
                batches = λ i a e. added i a e;
              })
        | inr room ↦
            rw (g.passed, g.left, g.buffer, room)
              (record {
                passed = refl;
                left = refl;
                buffer = refl;
                mine = g.mine;
                batches = g.batches;
              })
      ]
    where
      added :
          (i : ℕ) (a : Option Placement)
          → get_elem? (p.mine ∷ p.batches) i ≡ some a
          → (b : Option Placement) × (get_elem? (q.mine ∷ q.batches) i ≡ some b) × Matches rank' a b
      added zero a e = (q.mine, refl, λ x d. g.mine x (cc))
      added (suc i) a e = g.batches i a e

  at_iterator-Agrees :
      (l : List UnitTest × List UnitTest) (p q : Sharing)
      → IsBounded size rank p
      → Agrees rank' p q
      → Agrees rank' (at_iterator size rank l p) (at_iterator size rank' l q)
  at_iterator-Agrees (passed, []) p q h g = g
  at_iterator-Agrees (passed, t ∷ rest) p q h g =
      flush-Agrees (place size rank t passed rest p) (place size rank' t passed rest q)
        (place-Agrees t passed rest p q h g)

  turns-Agrees :
      (n : ℕ) (p q : Sharing)
      → IsBounded size rank p
      → Agrees rank' p q
      → Agrees rank' (turns size rank n p) (turns size rank' n q)
  unfolding turns turn
  turns-Agrees zero p q h g = g
  turns-Agrees (suc n) p q h g =
      turns-Agrees n (turn size rank p) (turn size rank' q)
        (at_iterator-IsBounded size rank (rewind p.passed p.left) p h)
        (subst (λ l. Agrees rank' (turn size rank p) (at_iterator size rank' l q))
          (cc (g.passed, g.left)) (at_iterator-Agrees (rewind p.passed p.left) p q h g))

  -- After any number of turns, where a rank ran a test in a batch, every rank of the range of that
  -- test ran the same test on the same range in the same batch: the communicator of the range is
  -- made by all its ranks.
  pub turns_collective :
      (tests : List UnitTest) (n i : ℕ) (x : Placement)
      → get_elem? (turns size rank n (begin_sharing tests)).batches i ≡ some (some x)
      → x.start ≤ rank'
      → rank' < x.stop
      → get_elem? (turns size rank' n (begin_sharing tests)).batches i ≡ some (some x)
  turns_collective tests n i x ran lo hi =
      let g =
        turns-Agrees n (begin_sharing tests) (begin_sharing tests) (begin-IsBounded size rank tests)
          (record {
            passed = refl;
            left = refl;
            buffer = refl;
            mine = λ y e below above. e;
            batches = λ k a e. cc;
          }) in
      let (b, there, same) = g.batches i (some x) ran in there ∙ ap some (same x refl lo hi)
