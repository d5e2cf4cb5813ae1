-- ===== src/Transport/Grid/Counting.antt =====
-- Coordinates in a grid, their row-major number, and the iterators that count through a block.
use native.Mathlib.Nat.{mul-le-mul_right, mul_assoc, mul_comm, add-mul, mod-eq_of_lt, mod_self}
use vnv.Base.{
  ℕ, suc, ◌+◌, ◌*◌, ◌<◌, ◌≤◌, ◌≡◌, refl, sym, ◌∙◌, ap, true, false, List, [], ◌∷◌, arith, length,
  ltb, lt→ltb, ◌⊎◌, inl, inr, ◌%◌, zero_times, suc_times,
}
use vnv.Transport.Grid.{Axes, accumulate, multipliers, further_multiplier, step, zeros}

abbrev pub product : List ℕ → ℕ
product [] = 1
product (g ∷ gs) = g * product gs

abbrev pub sizes : Axes → List ℕ
sizes [] = []
sizes ((size, offset) ∷ axes) = size ∷ sizes axes

-- The number of coordinates, the last dimension running fastest.
abbrev pub number : List ℕ → List ℕ → ℕ
number (g ∷ gs) (c ∷ cs) = c * product gs + number gs cs
number gs cs = 0

abbrev pub Inside : List ℕ → List ℕ → Type 0
Inside [] [] = Unit
Inside (g ∷ gs) (c ∷ cs) = (c < g) × Inside gs cs
Inside gs cs = ⊥

-- Where coordinates of a block are in the grid.
abbrev pub global : Axes → List ℕ → List ℕ
global ((size, offset) ∷ axes) (c ∷ cs) = (offset + c) ∷ global axes cs
global axes cs = []

abbrev pub Fits : List ℕ → Axes → Type 0
Fits [] [] = Unit
Fits (g ∷ gs) ((size, offset) ∷ axes) = (offset + size ≤ g) × Fits gs axes
Fits gs axes = ⊥

below : (g c p v : ℕ) → c < g → v < p → c * p + v < g * p
below g c p v h k = omega (arith, mul-le-mul_right p h, suc_times c p)

pub number-lt_product : (gs cs : List ℕ) → Inside gs cs → number gs cs < product gs
number-lt_product [] [] h = omega arith
number-lt_product [] (c ∷ cs) h = elim h [ ]
number-lt_product (g ∷ gs) [] h = elim h [ ]
number-lt_product (g ∷ gs) (c ∷ cs) (h, hs) =
    below g c (product gs) (number gs cs) h (number-lt_product gs cs hs)

trichotomy : (a b : ℕ) → (a < b) ⊎ ((a ≡ b) ⊎ (b < a))
trichotomy a b = ground arith

quotients : (a b p v w : ℕ) → v < p → w < p → a * p + v ≡ b * p + w → a ≡ b
quotients a b p v w h k e = elim (trichotomy a b) [
  | inl less ↦ absurd (omega (arith, mul-le-mul_right p less, suc_times a p))
  | inr (inl same) ↦ same
  | inr (inr more) ↦ absurd (omega (arith, mul-le-mul_right p more, suc_times b p))
]

cong_cons : {a b : ℕ} {xs ys : List ℕ} → a ≡ b → xs ≡ ys → a ∷ xs ≡ b ∷ ys
cong_cons e es = cc

pub number_injective :
    (gs cs ds : List ℕ) → Inside gs cs → Inside gs ds → number gs cs ≡ number gs ds → cs ≡ ds
number_injective [] [] [] h k e = refl
number_injective [] [] (d ∷ ds) h k e = elim k [ ]
number_injective [] (c ∷ cs) ds h k e = elim h [ ]
number_injective (g ∷ gs) [] ds h k e = elim h [ ]
number_injective (g ∷ gs) (c ∷ cs) [] h k e = elim k [ ]
number_injective (g ∷ gs) (c ∷ cs) (d ∷ ds) (h, hs) (k, ks) e =
    let same =
      quotients c d (product gs) (number gs cs) (number gs ds) (number-lt_product gs cs hs)
        (number-lt_product gs ds ks) e in
    cong_cons same
      (number_injective gs cs ds hs ks (omega (arith, e, ap (λ n. n * product gs) same)))

pub global-Inside :
    (gs : List ℕ) (axes : Axes) (cs : List ℕ)
    → Fits gs axes
    → Inside (sizes axes) cs
    → Inside gs (global axes cs)
global-Inside [] [] [] f h = tt
global-Inside [] [] (c ∷ cs) f h = elim h [ ]
global-Inside [] (a ∷ axes) cs f h = elim f [ ]
global-Inside (g ∷ gs) [] cs f h = elim f [ ]
global-Inside (g ∷ gs) ((size, offset) ∷ axes) [] f h = elim h [ ]
global-Inside (g ∷ gs) ((size, offset) ∷ axes) (c ∷ cs) (f, fs) (h, hs) =
    (omega arith, global-Inside gs axes cs fs hs)

head_eq : {a b : ℕ} {xs ys : List ℕ} → a ∷ xs ≡ b ∷ ys → a ≡ b
head_eq e = cc

tail_eq : {a b : ℕ} {xs ys : List ℕ} → a ∷ xs ≡ b ∷ ys → xs ≡ ys
tail_eq e = cc

pub global_injective :
    (axes : Axes) (cs ds : List ℕ)
    → Inside (sizes axes) cs
    → Inside (sizes axes) ds
    → global axes cs ≡ global axes ds
    → cs ≡ ds
global_injective [] [] [] h k e = refl
global_injective [] [] (d ∷ ds) h k e = elim k [ ]
global_injective [] (c ∷ cs) ds h k e = elim h [ ]
global_injective ((size, offset) ∷ axes) [] ds h k e = elim h [ ]
global_injective ((size, offset) ∷ axes) (c ∷ cs) [] h k e = elim k [ ]
global_injective ((size, offset) ∷ axes) (c ∷ cs) (d ∷ ds) (h, hs) (k, ks) e =
    cong_cons (omega (arith, head_eq e)) (global_injective axes cs ds hs ks (tail_eq e))

pub accumulate-product : (n : ℕ) (gs : List ℕ) → accumulate n gs ≡ n * product gs
accumulate-product n [] = omega arith
accumulate-product n (g ∷ gs) = accumulate-product (n * g) gs ∙ mul_assoc n g (product gs)

pub zeros-Inside :
    (axes : Axes) (is : List ℕ) → Inside (sizes axes) is → Inside (sizes axes) (zeros axes)
zeros-Inside [] [] h = tt
zeros-Inside [] (i ∷ is) h = elim h [ ]
zeros-Inside ((size, offset) ∷ axes) [] h = elim h [ ]
zeros-Inside ((size, offset) ∷ axes) (i ∷ is) (h, hs) = (omega arith, zeros-Inside axes is hs)

pub number-zeros : (axes : Axes) → number (sizes axes) (zeros axes) ≡ 0
number-zeros [] = refl
number-zeros ((size, offset) ∷ axes) =
    omega (arith, number-zeros axes, zero_times (product (sizes axes)))

-- Where the iterators behind have come round.
turn_over :
    (size i p v : ℕ)
    → i < size
    → suc v ≡ p
    → ((ltb 0 ((i + 1) % size) ≡ true)
        × ((i + 1) % size < size)
        × ((i + 1) % size * p + 0 ≡ suc (i * p + v)))
      ⊎ ((ltb 0 ((i + 1) % size) ≡ false) × ((i + 1) % size ≡ 0) × (suc (i * p + v) ≡ size * p))
turn_over size i p v h e = elim (trichotomy (i + 1) size) [
  | inl less ↦ inl (
      rw (mod-eq_of_lt less)
        (lt→ltb 0 (i + 1) (omega arith), less, omega (arith, add-mul i 1 p, e)))
  | inr (inl same) ↦ inr (
      rw (ap (λ n. n % size) same ∙ mod_self size)
        (refl, refl, omega (arith, ap (λ n. n * p) same, add-mul i 1 p, e)))
  | inr (inr more) ↦ absurd (omega arith)
]

pub iterators_turn :
    (ms : List ℕ) (axes : Axes) (is : List ℕ)
    → length ms ≡ length axes
    → Inside (sizes axes) is
    → let (f, up, is') = step ms axes is in
      ((up ≡ true)
        × Inside (sizes axes) is'
        × (number (sizes axes) is' ≡ suc (number (sizes axes) is)))
      ⊎ ((up ≡ false) × (is' ≡ zeros axes) × (suc (number (sizes axes) is) ≡ product (sizes axes)))
iterators_turn [] [] [] e h = inr (refl, refl, refl)
iterators_turn [] [] (i ∷ is) e h = elim h [ ]
iterators_turn [] (a ∷ axes) is e h = absurd (omega (arith, e))
iterators_turn (m ∷ ms) [] is e h = absurd (omega (arith, e))
iterators_turn (m ∷ ms) ((size, offset) ∷ axes) [] e h = elim h [ ]
iterators_turn (m ∷ ms) ((size, offset) ∷ axes) (i ∷ is) e (h, hs) =
    elim (iterators_turn ms axes is (omega (arith, e)) hs) [
      | inl (up, inside, n) ↦ inl (rw (up) refl, rw (up) (h, inside), rw (up) (omega (arith, n)))
      | inr (down, round, n) ↦
          elim (turn_over size i (product (sizes axes)) (number (sizes axes) is) h n) [
            | inl (up, small, n') ↦
                rw (down, round)
                  (inl (up, (small, zeros-Inside axes is hs), rw (number-zeros axes) n'))
            | inr (over, zero', n') ↦ rw (down, round) (inr (over, cong_cons zero' refl, n'))
          ]
    ]

multipliers-product : (g : ℕ) (gs : List ℕ) → multipliers (g ∷ gs) ≡ product gs ∷ multipliers gs
multipliers-product g [] = refl
multipliers-product g (h ∷ gs) =
    ap (further_multiplier h) (multipliers-product h gs)
    ∙ cong_cons (mul_comm (product gs) h) (sym (multipliers-product h gs))

pub length-multipliers : (gs : List ℕ) → length (multipliers gs) ≡ length gs
length-multipliers [] = refl
length-multipliers (g ∷ gs) = ap length (multipliers-product g gs) ∙ ap suc (length-multipliers gs)

pub length-Fits : (gs : List ℕ) (axes : Axes) → Fits gs axes → length gs ≡ length axes
length-Fits [] [] f = refl
length-Fits [] (a ∷ axes) f = elim f [ ]
length-Fits (g ∷ gs) [] f = elim f [ ]
length-Fits (g ∷ gs) ((size, offset) ∷ axes) (f, fs) = ap suc (length-Fits gs axes fs)

-- The index is the row-major number in the grid.
pub step_index :
    (gs : List ℕ) (axes : Axes) (is : List ℕ)
    → Fits gs axes
    → Inside (sizes axes) is
    → (step (multipliers gs) axes is).0 ≡ number gs (global axes is)
step_index [] [] [] f h = refl
step_index [] [] (i ∷ is) f h = elim h [ ]
step_index [] (a ∷ axes) is f h = elim f [ ]
step_index (g ∷ gs) [] is f h = elim f [ ]
step_index (g ∷ gs) ((size, offset) ∷ axes) [] f h = elim h [ ]
step_index (g ∷ gs) ((size, offset) ∷ axes) (i ∷ is) (f, fs) (h, hs) =
    rw (multipliers-product g gs) (omega (arith, step_index gs axes is fs hs))
