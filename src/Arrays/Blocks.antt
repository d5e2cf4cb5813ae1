-- ===== src/Arrays/Blocks.antt =====
-- Whether the blocks of the ranks lie in their grid, and fill it.
use native.Mathlib.Nat.{
  div-lt_iff_lt-mul, mul-div-mul_left, div-eq_of_eq-mul_right, mul-le-mul_right, mul-le-mul_left,
  mul_assoc, mul_comm, div-one, mod-lt, add-mul, mul-add, mul-pos, mul-mod_right, div-eq_of_lt-le,
  div-add-mod,
}
use vnv.Base.{
  ℕ, suc, ◌+◌, ◌-◌, ◌*◌, ◌/◌, ◌%◌, ◌≤◌, ◌<◌, ◌≡◌, ◌↔◌, ◌⊎◌, inl, inr, refl, ap, ◌∙◌, List, [], ◌∷◌,
  Option, some, ok, length, arith,
}
use vnv.Transport.Grid.Counting.{Fits, sizes, product}
use vnv.Transport.{DataType}
use vnv.Arrays.{
  count, matrix, Place, Piece, matrix_piece, write_matrix, matrix_refused, header_of, line, vector,
  some_all, write_action,
}
use vnv.Transport.Reductions.{Reducer}

regroup : (x y c k : ℕ) → x * y * (c * k) ≡ y * c * (x * k)
regroup x y c k = grind (arith, mul_assoc, mul_comm)

regroup_three : (c k x : ℕ) → c * k * x ≡ x * k * c
regroup_three c k x = grind (arith, mul_assoc, mul_comm)

rows : (x y c k : ℕ) → 0 < y → 0 < c → x * y * (c * k) / (y * c) ≡ x * k
rows x y c k hy hc = div-eq_of_eq-mul_right (mul-pos hy hc) (regroup x y c k)

across : (x y c r : ℕ) → 0 < y → r * x * y / (y * c) ≡ r * x / c
across x y c r hy = ap (λ n. n / (y * c)) (mul_comm (r * x) y) ∙ mul-div-mul_left (r * x) c hy

along : (y c r : ℕ) → 0 < y → r * y % (y * c) ≡ y * (r % c)
along y c r hy =
    let whole = div-add-mod (r * y) (y * c) in
    let quotient : r * y / (y * c) ≡ r / c =
      ap (λ n. n / (y * c)) (mul_comm r y) ∙ mul-div-mul_left r c hy in
    let parts = ap (λ n. y * n) (div-add-mod r c) in
    omega (
      arith,
      ap (λ n. y * c * n) quotient,
      whole,
      parts,
      mul-add y (c * (r / c)) (r % c),
      mul_assoc y c (r / c),
      mul_comm r y,
    )

times_one : (y : ℕ) → y * 1 ≡ y
times_one y = omega arith

beside : (y c r : ℕ) → 0 < c → y * (r % c) + y ≤ y * c
beside y c r hc =
    let small = mod-lt r hc in
    let room : r % c + 1 ≤ c = omega arith in
    omega (arith, mul-le-mul_left y room, mul-add y (r % c) 1)

beneath : (x c k r : ℕ) → 0 < c → r < c * k → (x ≡ 1) ⊎ (c ≡ 1) → r * x / c + x ≤ x * k
beneath x c k r hc h (inl one) =
    let less : r * x / c < k =
      (div-lt_iff_lt-mul hc).1 (omega (arith, mul_comm c k, ap (λ n. r * n) one)) in
    omega (arith, ap (λ n. n * k) one)
beneath x c k r hc h (inr one) =
    let more : r + 1 ≤ k = omega (arith, ap (λ n. n * k) one) in
    let quotient : r * x / c ≡ r * x = ap (λ n. r * x / n) one ∙ div-one (r * x) in
    omega (arith, quotient, mul-le-mul_right x more, add-mul r 1 x, mul_comm x k)

overflows : (x c k r : ℕ) → 1 < c → 1 < x → r + 1 ≡ c * suc k → ¬ (r * x / c + x ≤ x * suc k)
overflows x c k r hc hx last fits =
    let positive : 0 < c = omega arith in
    let next : suc k ≡ k + 1 = omega arith in
    let top : r ≡ c * k + (c - 1) = omega (arith, mul-add c k 1, ap (λ n. c * n) next) in
    let less : r * x / c < x * k + 1 = omega (arith, mul-add x k 1, ap (λ n. x * n) next) in
    let below = (div-lt_iff_lt-mul positive).0 less in
    let enough : 2 ≤ x = hx in
    omega (
      arith,
      below,
      ap (λ n. n * x) top,
      add-mul (c * k) (c - 1) x,
      add-mul (x * k) 1 c,
      mul-le-mul_left (c - 1) enough,
      regroup_three c k x,
    )

module _ {D : Type 0} (t : DataType D) where
  -- Sizes that the guard is meant to let through: c blocks stand beside each other.
  write_matrix-ok :
      (x y c : ℕ) (p : Place) (objects : List (Option D))
      → 0 < y
      → 0 < c
      → write_matrix t x y (y * c) p objects ≡ ok (some (matrix_piece t x y (y * c) p objects))
  unfolding write_matrix matrix_refused
  write_matrix-ok x y c p objects hy hc = ground (arith, mul-pos hy hc, mul-mod_right y c)

  -- Where a block has at least one column, the columns of the grid are c times those of a block
  -- for a positive c, the ranks are a multiple of c, and either a block has one row or c is one:
  -- a rank that supplies as many objects as MatrixAction counts puts them as a block that lies
  -- in the grid and holds as many places. The code asks for no more, although its comments want
  -- an error also for some of these sizes.
  pub matrix_inside :
      (x y c k : ℕ) (p : Place) (objects : List (Option D))
      → 0 < y
      → 0 < c
      → p.ranks ≡ c * k
      → p.rank < p.ranks
      → length objects ≡ count (matrix x y (y * c)) p
      → (x ≡ 1) ⊎ (c ≡ 1)
      → (piece : Piece D) × (write_matrix t x y (y * c) p objects ≡ ok (some piece))
        × Fits piece.gsizes (header_of piece).axes
        × ((header_of piece).count ≡ product (sizes (header_of piece).axes))
  unfolding count
  matrix_inside x y c k p objects hy hc n r l shape = (
    matrix_piece t x y (y * c) p objects,
    write_matrix-ok x y c p objects hy hc,
    (
      rw (n, rows x y c k hy hc, across x y c p.rank hy)
          (beneath x c k p.rank hc (omega arith) shape),
      (rw (along y c p.rank hy) (beside y c p.rank hc), tt),
    ),
    omega (arith, ap (λ n. x * n) (times_one y)),
  )

  -- Where c is more than one, as are the rows of a block, the block that the last rank puts reaches
  -- beyond the last row of the grid.
  pub matrix_outside :
      (x y c k : ℕ) (p : Place) (objects : List (Option D))
      → 0 < y
      → 1 < c
      → 1 < x
      → p.ranks ≡ c * suc k
      → p.rank + 1 ≡ p.ranks
      → (piece : Piece D) × (write_matrix t x y (y * c) p objects ≡ ok (some piece))
        × ¬ Fits piece.gsizes (header_of piece).axes
  matrix_outside x y c k p objects hy hc hx n last = (
    matrix_piece t x y (y * c) p objects,
    write_matrix-ok x y c p objects hy (omega arith),
    λ f.
        overflows x c k p.rank hc hx (last ∙ n)
          (rw (n, rows x y c (suc k) hy (omega arith), across x y c p.rank hy) at (f.0)),
  )

length-some_all : {D : Type 0} (t : DataType D) (ds : List D) → length (some_all t ds) ≡ length ds
length-some_all t [] = refl
length-some_all t (d ∷ ds) = ap suc (length-some_all t ds)

module _ {D : Type 0} (t : DataType D) (reducer : Reducer D) (reduced : Option D)
    (reduced_all : List D) where
  -- A rank that supplies as many objects as VectorAction counts puts them as a block that lies in the
  -- grid and holds as many places, and a place of the grid lies in it exactly if the rank is the number
  -- of the place divided by the size: every place is that of one rank.
  pub vector_inside :
      (size i : ℕ) (p : Place) (ds : List D)
      → 0 < size
      → p.rank < p.ranks
      → length ds ≡ count (vector size) p
      → (piece : Piece D) × (write_action t reducer reduced reduced_all (vector size) p ds
          ≡ ok (some piece))
        × Fits piece.gsizes (header_of piece).axes
        × ((header_of piece).count ≡ product (sizes (header_of piece).axes))
        × (piece.offsets ≡ size * p.rank ∷ [])
        × (((size * p.rank ≤ i) × (i < size * p.rank + size)) ↔ (i / size ≡ p.rank))
  unfolding count write_action
  vector_inside size i p ds h r l = (
    line t (size * p.ranks) size (size * p.rank) (some_all t ds),
    refl,
    (omega (arith, mul-le-mul_left size next, mul-add size p.rank 1), tt),
    omega (arith, length-some_all t ds),
    refl,
    (
      λ within.
          div-eq_of_lt-le size (omega (arith, within, mul_comm size p.rank))
            (omega (arith, within, mul_comm size p.rank, add-mul p.rank 1 size)),
      λ same. omega (arith, div-add-mod i size, mod-lt i h, ap (λ n. size * n) same),
    ),
  )
    where
      next : p.rank + 1 ≤ p.ranks
      next = omega arith
