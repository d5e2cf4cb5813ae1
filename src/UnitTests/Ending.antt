-- ===== src/UnitTests/Ending.antt =====
-- The loop of runAll ends.
use vnv.Base.{
  ℕ, zero, suc, ◌+◌, ◌*◌, ◌<◌, ◌≤◌, ◌≡◌, refl, ap, ◌∙◌, ◌≢◌, ◌⊎◌, true, List, [], ◌∷◌, arith,
  length, ltb, leb, Bool-cases, inl, inr,
}
use native.Mathlib.Nat.{mul-le-mul_right}
use vnv.UnitTests.{
  UnitTest, Sharing, begin_sharing, rewind, smallest_left, place, flush, at_iterator, back_onto,
  turn, turns,
}

-- How many tests there are, and how far the iterator is from where one is dropped or placed.
abbrev count : Sharing → ℕ
count p = length p.passed + length p.left

abbrev far : ℕ → List UnitTest → List UnitTest → ℕ
far buffer passed (t ∷ ts) = length (t ∷ ts)
far zero passed [] = 0
far (suc b) passed [] = 1 + length passed

abbrev distance : Sharing → ℕ
distance p = far p.current_buffer p.passed p.left

length-back_onto : (a b : List UnitTest) → length (back_onto a b) ≡ length a + length b
length-back_onto [] b = omega arith
length-back_onto (t ∷ a) b = omega (arith, length-back_onto a (t ∷ b))

is_zero : (k : ℕ) → (k ≡ 0) ⊎ (k ≢ 0)
is_zero zero = inl refl
is_zero (suc k) = inr λ e. omega arith

module _ (size rank : ℕ) where
  flush-count : (p : Sharing) → count (flush size rank p) ≡ count p
  flush-count p =
      elim (Bool-cases (ltb size (p.current_buffer + smallest_left size p.passed p.left))) [
        | inl full ↦ rw full refl
        | inr room ↦ rw room refl
      ]

  -- A test that does not fit now: at the end of the tests the batch runs.
  pass_by-distance :
      (t : UnitTest) (passed rest : List UnitTest) (p : Sharing)
      → ltb size (p.current_buffer + t.cores) ≡ true
      → distance (flush size rank (record p { passed = t ∷ passed; left = rest })) ≡ length rest
  pass_by-distance t passed [] p full = rw full refl
  pass_by-distance t passed (u ∷ us) p full =
      elim (Bool-cases (ltb size (p.current_buffer + smallest_left size (t ∷ passed) (u ∷ us)))) [
        | inl full' ↦ rw full' refl
        | inr room ↦ rw room refl
      ]

  -- A turn at a test drops or places it, or comes nearer.
  at_test :
      (t : UnitTest) (passed rest : List UnitTest) (p : Sharing)
      → let q = flush size rank (place size rank t passed rest p) in
        (count q ≡ length passed + length rest)
        ⊎ ((count q ≡ suc (length passed) + length rest)
            × (p.current_buffer ≢ 0)
            × (distance q ≡ length rest))
  at_test t passed rest p = elim (Bool-cases (ltb size t.cores)) [
    | inl large ↦ inl (flush-count (place size rank t passed rest p) ∙ rw large refl)
    | inr other ↦ elim (Bool-cases (leb (p.current_buffer + t.cores) size)) [
      | inl fits ↦ inl (flush-count (place size rank t passed rest p) ∙ rw (other, fits) refl)
      | inr full ↦ inr (
        flush-count (place size rank t passed rest p) ∙ rw (other, full) refl,
        λ e. ground arith,
        rw (other, full) (pass_by-distance t passed rest p (ground arith)),
      )
    ]
  ]

  abbrev Nearer : Sharing → Sharing → Type 0
  Nearer p q = (suc (count q) ≡ count p) ⊎ ((count q ≡ count p) × (distance q < distance p))

  again :
      (passed l : List UnitTest) (p : Sharing)
      → p.left ≡ []
      → p.passed ≡ passed
      → l ≡ back_onto passed []
      → count p ≢ 0
      → Nearer p (at_iterator size rank ([], l) p)
  again passed [] p e e' b some_ =
      absurd
        (some_ (omega (arith, ap length e, ap length e', ap length b, length-back_onto passed [])))
  again passed (t ∷ rest) p e e' b some_ =
      let len : suc (length rest) ≡ length passed =
        omega (arith, ap length b, length-back_onto passed []) in
      elim (at_test t [] rest p) [
        | inl fewer ↦ inl (omega (arith, fewer, len, ap length e, ap length e'))
        | inr (same, busy, near) ↦ inr (
          omega (arith, same, len, ap length e, ap length e'),
          omega (
            arith,
            near,
            len,
            ap length e',
            far_busy p.current_buffer p.passed busy,
            ap (far p.current_buffer p.passed) e,
          ),
        )
      ]
    where
      far_busy : (b : ℕ) (ts : List UnitTest) → b ≢ 0 → far b ts [] ≡ 1 + length ts
      far_busy zero ts h = absurd (h refl)
      far_busy (suc b) ts h = refl

  turn-Nearer : (p : Sharing) → count p ≢ 0 → Nearer p (turn size rank p)
  unfolding turn
  turn-Nearer p some_ = go p.left refl
    where
      go : (l : List UnitTest) → p.left ≡ l → Nearer p (at_iterator size rank (rewind p.passed l) p)
      go [] e = again p.passed (back_onto p.passed []) p e refl refl some_
      go (t ∷ rest) e = elim (at_test t p.passed rest p) [
        | inl fewer ↦ inl (omega (arith, fewer, ap length e))
        | inr (same, busy, near) ↦ inr (
          omega (arith, same, ap length e),
          omega (arith, near, ap (far p.current_buffer p.passed) e),
        )
      ]

  IsOver : Sharing → Type 0
  IsOver p = (p.passed ≡ []) × (p.left ≡ [])

  count-IsOver : (p : Sharing) → count p ≡ 0 → IsOver p
  unfolding IsOver
  count-IsOver p e = (empty p.passed (omega arith), empty p.left (omega arith))
    where
      empty : (l : List UnitTest) → length l ≡ 0 → l ≡ []
      empty [] h = refl
      empty (u ∷ us) h = ground arith

  turns-IsOver : (m : ℕ) (p : Sharing) → IsOver p → IsOver (turns size rank m p)
  unfolding turns turn IsOver
  turns-IsOver zero p h = h
  turns-IsOver (suc m) p h = turns-IsOver m (turn size rank p) (rw (h.0, h.1) (refl, refl))

  distance-le : (p : Sharing) → distance p ≤ 1 + count p
  distance-le p = go p.current_buffer p.passed p.left
    where
      go : (b : ℕ) (x y : List UnitTest) → far b x y ≤ 1 + (length x + length y)
      go b x (t ∷ ts) = omega arith
      go zero x [] = omega arith
      go (suc b) x [] = omega arith

  enough :
      (m n : ℕ) (p : Sharing)
      → 2 + count p ≤ n
      → count p * n + distance p ≤ m
      → IsOver (turns size rank m p)
  unfolding turns
  enough zero n p big h = elim (is_zero (count p)) [
    | inl none_ ↦ count-IsOver p none_
    | inr some_ ↦ absurd (some_ (omega (arith, mul-le-mul_right n (positive (count p) some_))))
  ]
    where
      positive : (k : ℕ) → k ≢ 0 → 1 ≤ k
      positive zero h = absurd (h refl)
      positive (suc k) h = omega arith
  enough (suc m) n p big h = elim (is_zero (count p)) [
    | inl none_ ↦ turns-IsOver (suc m) p (count-IsOver p none_)
    | inr some_ ↦
        let q = turn size rank p in
        elim (turn-Nearer p some_) [
          | inl fewer ↦
              enough m n q (omega (arith, fewer))
                (omega (arith, fewer, distance-le q, product (count q) (count p) n fewer))
          | inr (same, near) ↦
              enough m n q (omega (arith, same)) (omega (arith, near, ap (λ c. c * n) same))
        ]
  ]
    where
      product : (a b n : ℕ) → suc a ≡ b → b * n ≡ a * n + n
      product a b n e = omega (arith, ap (λ x. x * n) e)

  -- For any n tests, whatever their cores, the loop of runAll ends: after n * (n + 2) + n + 1 turns
  -- every test has been placed or dropped.
  pub turns_end :
      (tests : List UnitTest)
      → let n = length tests in
        let p = turns size rank (n * (2 + n) + (1 + n)) (begin_sharing tests) in
        (p.passed ≡ []) × (p.left ≡ [])
  unfolding IsOver
  turns_end tests =
      let n = length tests in
      enough (n * (2 + n) + (1 + n)) (2 + n) (begin_sharing tests) (omega arith)
        (omega (arith, distance-le (begin_sharing tests)))
